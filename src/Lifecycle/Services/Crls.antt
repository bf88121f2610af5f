-- ===== src/Lifecycle/Services/Crls.antt =====
-- lifecycle/service.go: the claim on generating the next CRL of a distribution point, and its number.
pub mod Claims
use ano_pki_community.Common.{
  String, Bool, List, [], ◌∷◌, ◌==◌, ◌&&◌, if◌then◌else◌, ℤ, increment, ◌+◌, ◌*◌, ltb_int64, after,
  Time, Duration, minute, Result, ok, err, Error,
}
use ano_pki_community.Domain.{CrlPublication, CrlGenerationClaim}
use ano_pki_community.Store.Repository as Repository
use ano_pki_community.Lifecycle.World.{Op, return, fail, ◌>>=◌, ◌>>◌, guard, attempt, repo, in_tx}

abbrev pub default_crl_generation_lease : Duration
default_crl_generation_lease = 5 * minute

-- The loop of nextCRLNumber. A CRL number is an int64, and the one behind the greatest int64 is the least.
unfoldable pub max_number : ℤ → List CrlPublication → String → ℤ
max_number largest [] distribution_point = largest
max_number largest (p ∷ ps) distribution_point =
    max_number
      (if p.distribution_point == distribution_point && ltb_int64 largest p.crl_number
        then p.crl_number
        else largest)
      ps distribution_point

unfoldable pub next_crl_number : List CrlPublication → String → ℤ
next_crl_number publications distribution_point =
    increment (max_number (ℤ.pos 0) publications distribution_point)

-- What a service does with the claim that it finds.
abbrev pub claim_over :
    String → String → Time → ℤ → Result CrlGenerationClaim → Op CrlGenerationClaim
claim_over issuer_id distribution_point now number (ok current) = do
  guard (after current.lease_expires_at now) Error.invalid_transition
  let claim = record current {
    crl_number = number;
    lease_expires_at = now + default_crl_generation_lease;
    updated_at = now;
  }
  repo (Repository.update_crl_generation_claim_if_current claim current)
  return claim
claim_over issuer_id distribution_point now number (err Error.crl_generation_claim_not_found) = do
  let claim : CrlGenerationClaim = record {
    issuer_id = issuer_id;
    distribution_point = distribution_point;
    crl_number = number;
    lease_expires_at = now + default_crl_generation_lease;
    created_at = now;
    updated_at = now;
  }
  repo (Repository.create_crl_generation_claim claim)
  return claim
claim_over issuer_id distribution_point now number (err e) = fail e

unfoldable pub claim_crl_generation : String → String → Time → Op CrlGenerationClaim
claim_crl_generation issuer_id distribution_point now = in_tx (do
  publications ← repo (Repository.list_crl_publications_by_issuer issuer_id)
  found ← attempt (repo (Repository.get_crl_generation_claim issuer_id distribution_point))
  claim_over issuer_id distribution_point now (next_crl_number publications distribution_point)
      found)
