-- ===== src/Store/Crls.antt =====
-- memory.go: the maps of CRL publications and of the claims on generating the next one.
pub mod Numbers
pub mod Latest
use Prim.Native.String.{◌++◌}
use ano_pki_community.Common.{
  eq_int64, ltb_int64, String, Bool, Option, none, some, List, [], ◌∷◌, ◌==◌, ◌&&◌, ◌||◌, not,
  if◌then◌else◌, GoMap, lookup, insert, delete, values, select, any, eqb, ltb, equal, after, Result,
  ok, err, Error, or_fail, ◌>>=◌, ◌>>◌, reject_if,
}
use ano_pki_community.Domain.{CrlPublication, CrlGenerationClaim}

unfoldable pub crl_generation_claim_key : String → String → String
crl_generation_claim_key issuer_id distribution_point = issuer_id ++ "\0" ++ distribution_point

abbrev reject_present : Option CrlGenerationClaim → Result (Unit {0})
reject_present none = ok tt
reject_present (some _) = err Error.invalid_transition

unfoldable pub create_crl_generation_claim :
    GoMap CrlGenerationClaim → CrlGenerationClaim → Result (GoMap CrlGenerationClaim)
create_crl_generation_claim claims claim = do
  reject_present (lookup (crl_generation_claim_key claim.issuer_id claim.distribution_point) claims)
  ok (insert (crl_generation_claim_key claim.issuer_id claim.distribution_point) claim claims)

unfoldable pub get_crl_generation_claim :
    GoMap CrlGenerationClaim → String → String → Result CrlGenerationClaim
get_crl_generation_claim claims issuer_id distribution_point =
    or_fail (lookup (crl_generation_claim_key issuer_id distribution_point) claims)
      Error.crl_generation_claim_not_found

-- The stored claim is the one that the caller has read.
abbrev pub same_claim : CrlGenerationClaim → CrlGenerationClaim → Bool
same_claim stored current =
    eq_int64 stored.crl_number current.crl_number
    && equal stored.lease_expires_at current.lease_expires_at
    && equal stored.updated_at current.updated_at

unfoldable pub update_crl_generation_claim_if_current :
    GoMap CrlGenerationClaim
    → CrlGenerationClaim
    → CrlGenerationClaim
    → Result (GoMap CrlGenerationClaim)
update_crl_generation_claim_if_current claims claim current = do
  stored ←
      or_fail (lookup (crl_generation_claim_key claim.issuer_id claim.distribution_point) claims)
        Error.crl_generation_claim_not_found
  reject_if (not (same_claim stored current)) Error.invalid_transition
  ok (insert (crl_generation_claim_key claim.issuer_id claim.distribution_point) claim claims)

unfoldable pub delete_crl_generation_claim_if_current :
    GoMap CrlGenerationClaim → CrlGenerationClaim → Result (GoMap CrlGenerationClaim)
delete_crl_generation_claim_if_current claims current = do
  stored ←
      or_fail
        (lookup (crl_generation_claim_key current.issuer_id current.distribution_point) claims)
        Error.crl_generation_claim_not_found
  reject_if (not (same_claim stored current)) Error.invalid_transition
  ok (delete (crl_generation_claim_key current.issuer_id current.distribution_point) claims)

abbrev pub takes_number_of : CrlPublication → CrlPublication → Bool
takes_number_of candidate p =
    not (p.id == candidate.id)
    && p.issuer_id == candidate.issuer_id
    && p.distribution_point == candidate.distribution_point
    && eq_int64 p.crl_number candidate.crl_number

unfoldable pub ensure_crl_publication_number_available :
    GoMap CrlPublication → CrlPublication → Result (Unit {0})
ensure_crl_publication_number_available publications candidate =
    reject_if (any (takes_number_of candidate) (values publications)) Error.invalid_transition

-- The body of CreateCRLPublication.
unfoldable pub create_crl_publication :
    GoMap CrlPublication → CrlPublication → Result (GoMap CrlPublication)
unfolding ensure_crl_publication_number_available
create_crl_publication publications p = do
  ensure_crl_publication_number_available publications p
  ok (insert p.id p publications)

unfoldable pub list_crl_publications_by_issuer : GoMap CrlPublication → String → List CrlPublication
list_crl_publications_by_issuer publications issuer_id =
    select (λ p. p.issuer_id == issuer_id) (values publications)

-- The loop of latestCRLPublicationByIssuer: `none` is `found == false`.
unfoldable pub latest_of :
    String → Option CrlPublication → List CrlPublication → Option CrlPublication
latest_of issuer_id best [] = best
latest_of issuer_id none (p ∷ ps) =
    latest_of issuer_id (if p.issuer_id == issuer_id then some p else none) ps
latest_of issuer_id (some latest) (p ∷ ps) =
    latest_of issuer_id
      (if p.issuer_id == issuer_id
          && (ltb_int64 latest.crl_number p.crl_number || after p.created_at latest.created_at)
        then some p
        else some latest)
      ps

unfoldable pub latest_crl_publication_by_issuer :
    GoMap CrlPublication → String → Result CrlPublication
unfolding latest_of
latest_crl_publication_by_issuer publications issuer_id =
    or_fail (latest_of issuer_id none (values publications)) Error.crl_publication_not_found
