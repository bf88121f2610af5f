-- ===== src/Lifecycle/Caa/RoundTrip.antt =====
-- caa.go: a query that was built is read back by the parser of answers.
use ano_pki_community.Common.{
  ℕ, zero, suc, ◌+◌, ◌*◌, ◌/◌, ◌%◌, ◌≡◌, ◌≢◌, ◌≤◌, ◌<◌, refl, sym, ap, ◌∙◌, arith, Bool, true,
  false, Bool-cases, inl, inr, ◌||◌, some, List, [], ◌∷◌, ◌++◌, length, length-append, leb, ltb,
  eqb, Result, Result-cases, subst, ok, err, Error,
}
use ano_pki_community.Lifecycle.Caa.{
  CaaLookupResult, DnssecStatus, Run, yields, run_then, access, refuse, byte_at, uint16_at,
  after_length, skip_rounds, skip_dns_name, skip_questions, read_records, parse_caa_response,
  with_label, encode_labels, query_header, build_caa_query,
}

byte_at-append :
    (before : List ℕ) (b : ℕ) (after : List ℕ)
    → byte_at (before ++ (b ∷ after)) (length before) ≡ some b
unfolding byte_at
byte_at-append [] b after = refl
byte_at-append (x ∷ before) b after = byte_at-append before b after

append_assoc : (xs ys zs : List ℕ) → (xs ++ ys) ++ zs ≡ xs ++ (ys ++ zs)
append_assoc [] ys zs = refl
append_assoc (x ∷ xs) ys zs = ap (λ l. x ∷ l) (append_assoc xs ys zs)

-- One round at a length byte that stands behind `before`.
skip_round :
    (fuel : ℕ) (before : List ℕ) (n : ℕ) (after : List ℕ)
    → let message = before ++ (n ∷ after) in
      skip_rounds (suc fuel) message (length before)
      ≡ after_length (skip_rounds fuel message) message (length before + 1) n
unfolding skip_rounds run_then refuse access
skip_round fuel before n after =
    let message = before ++ (n ∷ after) in
    let inside : leb (length message) (length before) ≡ false =
      ground (arith, length-append before (n ∷ after)) in
    rw (inside, byte_at-append before n after) refl

-- A round behind a length from 1 to 63 goes on behind the label.
label_round :
    (rest : ℕ → Run ℕ) (message : List ℕ) (offset n : ℕ)
    → 0 < n
    → n < 64
    → offset + n ≤ length message
    → after_length rest message offset n ≡ rest (offset + n)
unfolding run_then refuse
label_round rest message offset n h k l =
    let long : eqb n 0 ≡ false = ground (arith, h) in
    let plain : eqb (n / 64 % 4) 3 ≡ false = ground (arith, k) in
    let fits : ltb (length message) (offset + n) ≡ false = ground (arith, l) in
    rw (long, plain, fits) refl

not_ok : (x : Error) (name : List ℕ) → err x ≢ ok name
not_ok x name h = ground (arith, h)

with_label-ok :
    (label : List ℕ) (r : Result (List ℕ)) (name : List ℕ)
    → with_label label r ≡ ok name
    → (rest : List ℕ) × (r ≡ ok rest) × ((length label % 256) ∷ label ++ rest ≡ name)
with_label-ok label (ok rest) name h = (rest, refl, ground (arith, h))
with_label-ok label (err x) name h = absurd (not_ok x name h)

encode-cons :
    (label : List ℕ) (labels : List (List ℕ)) (name : List ℕ)
    → encode_labels (label ∷ labels) ≡ ok name
    → (rest : List ℕ) × (0 < length label)
      × (length label < 64)
      × (encode_labels labels ≡ ok rest)
      × (name ≡ length label ∷ label ++ rest)
unfolding encode_labels
encode-cons label labels name h =
    elim (Bool-cases (eqb (length label) 0 || ltb 63 (length label))) [
      | inl e ↦ absurd (not_ok _ name (rw e at h))
      | inr e ↦
          let (rest, found, same) = with_label-ok label (encode_labels labels) name (rw e at h) in
          (
            rest,
            ground (arith, e),
            ground (arith, e),
            found,
            sym same ∙ ap (λ n. n ∷ label ++ rest) (ground (arith, e)),
          )
    ]

encode-nil : (name : List ℕ) → encode_labels [] ≡ ok name → name ≡ []
unfolding encode_labels
encode-nil name h = ground (arith, h)

-- The rounds behind a label, where the name goes on behind `before`, its length and itself.
skip_label :
    (fuel : ℕ) (before label rest after : List ℕ)
    → 0 < length label
    → length label < 64
    → skip_rounds fuel
        ((before ++ (length label ∷ label)) ++ (rest ++ (0 ∷ after)))
        (length (before ++ (length label ∷ label)))
      ≡ yields (length (before ++ (length label ∷ label)) + length rest + 1)
    → let message = before ++ (length label ∷ ((label ++ rest) ++ (0 ∷ after))) in
      after_length (skip_rounds fuel message) message (length before + 1) (length label)
      ≡ yields (length before + length (length label ∷ label ++ rest) + 1)
skip_label fuel before label rest after h k next =
    let message = before ++ (length label ∷ ((label ++ rest) ++ (0 ∷ after))) in
    let ahead = before ++ (length label ∷ label) in
    let same : ahead ++ (rest ++ (0 ∷ after)) ≡ message =
      append_assoc before (length label ∷ label) (rest ++ 0 ∷ after)
      ∙ ap (λ l. before ++ (length label ∷ l)) (sym (append_assoc label rest (0 ∷ after))) in
    let here : length ahead ≡ length before + 1 + length label =
      omega (arith, length-append before (length label ∷ label)) in
    label_round (skip_rounds fuel message) message (length before + 1) (length label) h k (
      omega (
        arith,
        length-append before (length label ∷ ((label ++ rest) ++ (0 ∷ after))),
        length-append (label ++ rest) (0 ∷ after),
        length-append label rest,
      ))
    ∙ ap (skip_rounds fuel message) (sym here)
    ∙ ap (λ m. skip_rounds fuel m (length ahead)) (sym same)
    ∙ next
    ∙ ap (λ n. yields n) (omega (arith, here, length-append label rest))

skip_name :
    (fuel : ℕ) (labels : List (List ℕ)) (before name after : List ℕ)
    → encode_labels labels ≡ ok name
    → length labels < fuel
    → skip_rounds fuel (before ++ (name ++ (0 ∷ after))) (length before)
      ≡ yields (length before + length name + 1)
skip_name zero labels before name after h l = absurd (omega (arith, l))
skip_name (suc fuel) [] before name after h l =
    rw (encode-nil name h) (skip_round fuel before 0 after ∙ ap (λ n. yields n) (omega arith))
skip_name (suc fuel) (label ∷ labels) before name after h l =
    let (rest, some_length, short, encoded, e) = encode-cons label labels name h in
    rw e (
      skip_round fuel before (length label) ((label ++ rest) ++ (0 ∷ after))
      ∙ skip_label fuel before label rest after some_length short (
          skip_name fuel labels (before ++ (length label ∷ label)) rest after encoded
            (omega (arith, l))))

abbrev query_tail : List ℕ
query_tail = 1 ∷ 1 ∷ 0 ∷ 1 ∷ []

abbrev query_of : ℕ → List ℕ → List ℕ
query_of id name = query_header id ++ (name ++ (0 ∷ query_tail))

labels-name :
    (labels : List (List ℕ)) (name : List ℕ)
    → encode_labels labels ≡ ok name
    → length labels ≤ length name
labels-name [] name h = omega arith
labels-name (label ∷ labels) name h =
    let (rest, some_length, short, encoded, e) = encode-cons label labels name h in
    omega (arith, ap (λ n. length n) e, length-append label rest, labels-name labels rest encoded)

length-query : (id : ℕ) (name : List ℕ) → length (query_of id name) ≡ 12 + length name + 1 + 4
length-query id name = omega (arith, length-append name (0 ∷ query_tail))

skip_question :
    (id : ℕ) (labels : List (List ℕ)) (name : List ℕ)
    → encode_labels labels ≡ ok name
    → skip_dns_name (query_of id name) 12 ≡ yields (12 + length name + 1)
unfolding skip_dns_name
skip_question id labels name h =
    skip_name (length (query_of id name) + 1) labels (query_header id) name query_tail h
      (omega (arith, length-query id name, labels-name labels name h))

skip_all_questions :
    (id : ℕ) (labels : List (List ℕ)) (name : List ℕ)
    → encode_labels labels ≡ ok name
    → skip_questions 1 (query_of id name) 12 ≡ yields (12 + length name + 1 + 4)
unfolding skip_questions run_then refuse
skip_all_questions id labels name h =
    let fits : ltb (length (query_of id name)) (12 + length name + 1 + 4) ≡ false =
      ground (arith, length-query id name) in
    rw (skip_question id labels name h, fits) refl

ok_inj : {a b : List ℕ} → ok a ≡ ok b → a ≡ b
ok_inj h = ground (arith, h)

same_id : (id : ℕ) → id < 65536 → id / 256 % 256 * 256 + id % 256 ≡ id
same_id id h = omega (arith, h)

-- The answer without records.
abbrev pub no_records : CaaLookupResult × Bool
no_records = (record { records = []; dnssec_status = DnssecStatus.indeterminate }, false)

parse_query :
    (id : ℕ) (labels : List (List ℕ)) (name : List ℕ)
    → encode_labels labels ≡ ok name
    → id < 65536
    → parse_caa_response (query_of id name) id ≡ yields no_records
unfolding parse_caa_response uint16_at byte_at access run_then refuse read_records
parse_query id labels name h small =
    let long : ltb (length (query_of id name)) 12 ≡ false = ground (arith, length-query id name) in
    let same : eqb (id / 256 % 256 * 256 + id % 256) id ≡ true = ground (arith, same_id id small) in
    rw (long, same, skip_all_questions id labels name h) refl

-- A query that buildCAAQuery makes for a 16-bit id and the labels of a name is read by parseCAAResponse,
-- under that id, as an answer without an error and without records: the encoded name and the type and
-- class of the question are skipped exactly.
pub build_caa_query-parse :
    (id : ℕ) (labels : List (List ℕ)) (query : List ℕ)
    → build_caa_query id labels ≡ ok query
    → id < 65536
    → parse_caa_response query id ≡ yields no_records
unfolding build_caa_query
build_caa_query-parse id labels query h small = elim (Result-cases (encode_labels labels)) [
  | inl (name, e) ↦
      subst (λ q. parse_caa_response q id ≡ yields no_records) (ok_inj (rw e at h))
        (parse_query id labels name e small)
  | inr (x, e) ↦ absurd (not_ok x query (rw e at h))
]
