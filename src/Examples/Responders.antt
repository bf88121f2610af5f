-- ===== src/Examples/Responders.antt =====
-- The rotation of an OCSP responder, in a small world.
use ano_pki_community.Common.{
  increment, eq_iff, arith, ap, ◌≡◌, ◌≢◌, refl, true, some, [], ◌∷◌, lookup, insert, values, ok,
}
use ano_pki_community.Domain.{
  Issuer, IssuerKind, IssuerStatus, OcspResponder, OcspResponderStatus,
  OcspResponderStatus-discrete,
}
use ano_pki_community.Audit.Hex.{is_audit_hash}
use ano_pki_community.Audit.Hash.{
  audit_event_hash, canonical_audit_metadata, hash_payload, with_audit_event_hash,
}
use ano_pki_community.Audit.Verify.{
  audit_integrity_error, verify_audit_state, verify_audit_events, checkpoint_failure, verify_loop,
  empty_audit_chain_state, event_failure,
}
use ano_pki_community.Audit.Memory.{append_memory_audit_event}
use ano_pki_community.Store.State.{new_memory_store, within_tx, written}
use ano_pki_community.Store.Responders.{
  active_ocsp_responder_by_issuer as active_in, latest_active, create_ocsp_responder as create_in,
  update_ocsp_responder_if_status as update_in,
}
use ano_pki_community.Store.Repository.{
  get_issuer, get_active_ocsp_responder_by_issuer, create_ocsp_responder,
  update_ocsp_responder_if_status, create_audit_event as record_audit_event,
}
use ano_pki_community.Lifecycle.World.{World, Op, in_tx, bound, guard}
use ano_pki_community.Lifecycle.Services.{create_audit_event}
use ano_pki_community.Lifecycle.Services.Responders.{
  RotateOcspResponderRequest, new_responder, rotate_ocsp_responder,
}
use ano_pki_community.Lifecycle.Services.Responders.Rotation.{
  RotationResult, rotate_ocsp_responder_lem,
}
use ano_pki_community.Examples.Services.{service}
use ano_pki_community.Examples.Store.{responder, one_responder, one_responder-IsSingle}

abbrev issuer : Issuer
issuer = record {
  id = "issuer-1";
  name = "root";
  kind = IssuerKind.root_ca;
  status = IssuerStatus.active;
  parent_issuer_id = "";
  certificate_pem = "pem";
  key_ref = "key";
  aia_url = "";
  crl_distribution_points = [];
  trust_anchor = true;
  created_at = 1;
  updated_at = 1;
}

abbrev world : World
world = record {
  store = record new_memory_store {
    issuers = ("issuer-1", issuer) ∷ [];
    ocsp_responders = one_responder;
  };
  readings = 0;
  ids = 0;
}

abbrev request : RotateOcspResponderRequest
request = record {
  issuer_id = "issuer-1";
  name = "next";
  certificate_pem = "pem2";
  key_ref = "key2";
}

abbrev rotation : Op OcspResponder
rotation = rotate_ocsp_responder service (λ issuer_pem responder_pem. ok true) "operator" request

rotates : (rotation world).0 ≡ ok (new_responder "id" request 100)
unfolding bound guard written rotate_ocsp_responder in_tx within_tx get_issuer lookup insert values
    get_active_ocsp_responder_by_issuer active_in latest_active create_in update_in
    create_ocsp_responder update_ocsp_responder_if_status OcspResponderStatus-discrete
    new_memory_store create_audit_event record_audit_event append_memory_audit_event
    audit_integrity_error verify_audit_state verify_audit_events checkpoint_failure verify_loop
    audit_event_hash canonical_audit_metadata hash_payload with_audit_event_hash is_audit_hash
    empty_audit_chain_state event_failure increment
rotates = refl

issuer_stored : lookup "issuer-1" world.store.issuers ≡ some issuer
unfolding lookup
issuer_stored = refl

first_active :
    active_in world.store.ocsp_responders "issuer-1"
    ≡ ok (responder "r1" OcspResponderStatus.active)
unfolding active_in latest_active values OcspResponderStatus-discrete
first_active = refl

other_id : service.environment.new_id 0 ≢ "r1"
other_id e = ground (arith, eq_iff "id" "r1", e)

rotate_ocsp_responder_lem_example :
    RotationResult service
      (λ issuer_pem responder_pem. ok true)
      request
      issuer
      (responder "r1" OcspResponderStatus.active)
      world
      (new_responder "id" request 100)
      (rotation world).1
rotate_ocsp_responder_lem_example =
    rotate_ocsp_responder_lem service (λ issuer_pem responder_pem. ok true) "operator" request
      issuer (responder "r1" OcspResponderStatus.active) (new_responder "id" request 100) world
      (rotation world).1 one_responder-IsSingle issuer_stored first_active other_id
      (ap (λ r. (r, (rotation world).1)) rotates)
