-- ===== src/Examples/Services.antt =====
-- The lifecycle services on small stores.
use ano_pki_community.Common.{
  ℤ, max_int64, increment, ◌*◌, minute, String, ◌≡◌, refl, true, some, [], ◌∷◌, ◌+◌, ◌<◌, ℕ, Time,
  lookup, insert, values, All, ok, err, Error, arith, IsKeyed,
}
use ano_pki_community.Domain.{
  Certificate, CertificateStatus, CrlPublication, CrlPublicationStatus, CrlGenerationClaim,
  IssuanceAttemptStatus, RevocationReason,
}
use ano_pki_community.Store.Crls.{
  latest_crl_publication_by_issuer, list_crl_publications_by_issuer as of_issuer,
  get_crl_generation_claim as get_claim, create_crl_generation_claim as create_claim,
}
use ano_pki_community.Store.Crls.Latest.{latest_crl_publication_unstable}
use ano_pki_community.Store.Issuance.{
  create_issuance_attempt as create_attempt, get_issuance_attempt as get_attempt,
}
use ano_pki_community.Store.State.{new_memory_store, within_tx, written}
use ano_pki_community.Store.Repository.{
  list_crl_publications_by_issuer, get_crl_generation_claim, create_crl_generation_claim,
  create_issuance_attempt, get_issuance_attempt,
}
use ano_pki_community.Lifecycle.World.{World, in_tx, bound, guard}
use ano_pki_community.Lifecycle.Services.{Service}
use ano_pki_community.Lifecycle.Services.Certificates.{
  revoke_certificate, suspend_certificate, resume_certificate,
}
use ano_pki_community.Lifecycle.Services.Certificates.Final.{IsRefused, revoked_is_final}
use ano_pki_community.Lifecycle.Services.Crls.{
  claim_crl_generation, next_crl_number, max_number, default_crl_generation_lease,
}
use ano_pki_community.Lifecycle.Services.Crls.Claims.{
  claim_key, NumberBelow, claim_crl_generation_lem,
}
use ano_pki_community.Lifecycle.Services.Issuance.{claim_issuance_attempt, new_attempt}
use ano_pki_community.Lifecycle.Services.Issuance.Leases.{
  attempt_key, claim_issuance_attempt_exclusive,
}

abbrev publication : String → ℕ → Time → CrlPublication
publication id number at = record {
  id = id;
  issuer_id = "issuer-1";
  distribution_point = "http://crl.example/1";
  crl_number = ℤ.pos number;
  this_update = at;
  next_update = at + 10;
  status = CrlPublicationStatus.published;
  crl_pem = "pem";
  created_at = at;
  updated_at = at;
}

latest_crl_publication_unstable_example :
    (latest_crl_publication_by_issuer
        (("p2", publication "p2" 2 10) ∷ ("p1", publication "p1" 1 20) ∷ [])
        "issuer-1"
      ≡ ok (publication "p1" 1 20))
    × (latest_crl_publication_by_issuer
          (("p1", publication "p1" 1 20) ∷ ("p2", publication "p2" 2 10) ∷ [])
          "issuer-1"
        ≡ ok (publication "p2" 2 10))
latest_crl_publication_unstable_example =
    latest_crl_publication_unstable "issuer-1" (publication "p2" 2 10) (publication "p1" 1 20) refl
      refl (omega arith) (omega arith)

abbrev world : World
world = record {
  store = record new_memory_store { crls = ("p1", publication "p1" 1 10) ∷ [] };
  readings = 0;
  ids = 0;
}

abbrev reserved : CrlGenerationClaim
reserved = record {
  issuer_id = "issuer-1";
  distribution_point = "http://crl.example/1";
  crl_number = ℤ.pos 2;
  lease_expires_at = 100 + default_crl_generation_lease;
  created_at = 100;
  updated_at = 100;
}

abbrev reserved_world : World
reserved_world = (claim_crl_generation "issuer-1" "http://crl.example/1" 100 world).1

reserves :
    claim_crl_generation "issuer-1" "http://crl.example/1" 100 world ≡ (ok reserved, reserved_world)
unfolding bound guard written claim_crl_generation in_tx within_tx list_crl_publications_by_issuer
    increment get_crl_generation_claim get_claim create_crl_generation_claim create_claim of_issuer
    max_number next_crl_number values lookup insert new_memory_store
reserves = refl

claims-IsKeyed : IsKeyed claim_key world.store.crl_claims
unfolding new_memory_store
claims-IsKeyed = tt

attempts-IsKeyed : IsKeyed attempt_key world.store.issuance_attempts
unfolding new_memory_store
attempts-IsKeyed = tt

numbers_small :
    All
      (NumberBelow "http://crl.example/1" (ℤ.pos max_int64))
      (of_issuer world.store.crls "issuer-1")
unfolding of_issuer values
numbers_small = ((λ q. omega arith), tt)

claim_crl_generation_lem_example :
    All (NumberBelow "http://crl.example/1" (ℤ.pos 2)) (of_issuer world.store.crls "issuer-1")
    × (reserved.lease_expires_at ≡ 100 + 5 * minute)
    × ((later : Time)
        → later < 100 + 5 * minute
        → claim_crl_generation "issuer-1" "http://crl.example/1" later reserved_world
          ≡ (err Error.invalid_transition, reserved_world))
claim_crl_generation_lem_example =
    claim_crl_generation_lem "issuer-1" "http://crl.example/1" 100 world reserved_world reserved
      claims-IsKeyed numbers_small reserves

abbrev signing_world : World
signing_world = (claim_issuance_attempt "enrollment-1" 100 world).1

signs :
    claim_issuance_attempt "enrollment-1" 100 world
    ≡ (ok (new_attempt "enrollment-1" 100, true), signing_world)
unfolding bound guard written claim_issuance_attempt in_tx within_tx create_issuance_attempt
    get_issuance_attempt create_attempt get_attempt lookup insert new_memory_store
signs = refl

claim_issuance_attempt_exclusive_example :
    (lookup "enrollment-1" signing_world.store.issuance_attempts
      ≡ some (new_attempt "enrollment-1" 100))
    × ((new_attempt "enrollment-1" 100).status ≡ IssuanceAttemptStatus.signing)
    × ((later : Time)
        → later < 100 + 5 * minute
        → claim_issuance_attempt "enrollment-1" later signing_world
          ≡ (err Error.invalid_transition, signing_world))
claim_issuance_attempt_exclusive_example =
    claim_issuance_attempt_exclusive "enrollment-1" 100 world signing_world
      (new_attempt "enrollment-1" 100) attempts-IsKeyed signs

abbrev dead_certificate : Certificate
dead_certificate = record {
  id = "c1";
  identity_id = "identity-1";
  issuer_id = "issuer-1";
  enrollment_id = "enrollment-1";
  certificate_profile_id = "profile-1";
  serial_number = "01";
  subject = "CN=example";
  dns_names = [];
  ip_addresses = [];
  not_before = 1;
  not_after = 100;
  status = CertificateStatus.revoked;
  certificate_pem = "pem";
  renewal_notified_at = 0;
  created_at = 1;
  updated_at = 1;
}

abbrev revoked_world : World
revoked_world = record {
  store = record new_memory_store { certificates = ("c1", dead_certificate) ∷ [] };
  readings = 0;
  ids = 0;
}

abbrev pub service : Service
service = record {
  environment = record { reading = λ n. 100 + n; new_id = λ n. "id" };
  codec = record {
    next_json = λ value. some (value, "");
    at_eof = λ rest. true;
    marshal_payload = λ payload. some payload.id;
    format_time = λ at. "2026-01-01T00:00:00Z";
    sha256_hex = λ input. "0123456789abcdef0123456789abcdef0123456789abcdef0123456789abcdef";
  };
  audit_metadata_json = λ fields result_code error_code. "{}";
  marshal_event = λ fields. some "{}";
  trim_space = λ value. value;
  format_time = λ t. "";
}

revoked_stored : lookup "c1" revoked_world.store.certificates ≡ some dead_certificate
unfolding lookup
revoked_stored = refl

revoked_is_final_example :
    IsRefused
      (revoke_certificate service "operator" "c1" RevocationReason.superseded true)
      revoked_world
    × IsRefused (suspend_certificate service "operator" "c1") revoked_world
    × IsRefused (resume_certificate service "operator" "c1") revoked_world
unfolding bound guard written
revoked_is_final_example =
    revoked_is_final service "operator" "c1" RevocationReason.superseded true revoked_world
      dead_certificate refl revoked_stored refl
