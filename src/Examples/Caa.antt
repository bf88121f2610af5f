-- ===== src/Examples/Caa.antt =====
-- The CAA query and answers at concrete bytes.
use ano_pki_community.Common.{
  ℕ, ◌≡◌, refl, arith, Bool, List, [], ◌∷◌, ◌++◌, some, Result, ok, true,
}
use ano_pki_community.Lifecycle.Caa.{
  CaaLookupResult, DnssecStatus, yields, run_then, access, refuse, byte_at, slice, uint16_at,
  skip_rounds, skip_dns_name, skip_questions, tagged, read_record, read_records, parse_caa_response,
  encode_labels, query_header, build_caa_query,
}
use ano_pki_community.Lifecycle.Caa.Safe.{parse_caa_response-ends}
use ano_pki_community.Lifecycle.Caa.RoundTrip.{no_records, build_caa_query-parse}

-- "ab.c", with the id 258.
abbrev labels : List (List ℕ)
labels = (97 ∷ 98 ∷ []) ∷ (99 ∷ []) ∷ []

abbrev query : List ℕ
query = query_header 258 ++ (2 ∷ 97 ∷ 98 ∷ 1 ∷ 99 ∷ 0 ∷ 1 ∷ 1 ∷ 0 ∷ 1 ∷ [])

built : build_caa_query 258 labels ≡ ok query
unfolding build_caa_query encode_labels
built = refl

build_caa_query-parse_example : parse_caa_response query 258 ≡ yields no_records
build_caa_query-parse_example = build_caa_query-parse 258 labels query built (omega arith)

-- An answer with one record `issue "ca"`, whose name is a pointer.
abbrev answer : List ℕ
answer =
    1 ∷ 2 ∷ 129 ∷ 32 ∷ 0 ∷ 0 ∷ 0 ∷ 1 ∷ 0 ∷ 0 ∷ 0 ∷ 0 ∷ 192 ∷ 12 ∷ 1 ∷ 1 ∷ 0 ∷ 1 ∷ 0 ∷ 0 ∷ 0 ∷ 0 ∷ 0
    ∷ 9 ∷ 0 ∷ 5 ∷ 105 ∷ 115 ∷ 115 ∷ 117 ∷ 101 ∷ 99 ∷ 97 ∷ []

reads_answer :
    parse_caa_response answer 258
    ≡ yields (
      record {
        records =
            record { flag = 0; tag = 105 ∷ 115 ∷ 115 ∷ 117 ∷ 101 ∷ []; value = 99 ∷ 97 ∷ [] } ∷ [];
        dnssec_status = DnssecStatus.secure;
      },
      true,
    )
unfolding parse_caa_response run_then access refuse byte_at slice uint16_at skip_rounds
    skip_dns_name skip_questions tagged read_record read_records
reads_answer = refl

parse_caa_response-ends_example :
    (r : Result (CaaLookupResult × Bool)) × (parse_caa_response (0 ∷ 1 ∷ 2 ∷ []) 258 ≡ some r)
parse_caa_response-ends_example = parse_caa_response-ends (0 ∷ 1 ∷ 2 ∷ []) 258
