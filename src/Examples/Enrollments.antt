-- ===== src/Examples/Enrollments.antt =====
-- The decision on an enrollment, with a small service.
use ano_pki_community.Common.{increment, inl, ap, ◌≡◌, refl, some, [], ◌∷◌, lookup, insert, ok}
use ano_pki_community.Domain.{Enrollment, EnrollmentStatus, EnrollmentStatus-discrete}
use ano_pki_community.Store.Issuance.{update_enrollment_if_status as write_enrollment}
use ano_pki_community.Audit.Hex.{is_audit_hash}
use ano_pki_community.Audit.Hash.{
  audit_event_hash, canonical_audit_metadata, hash_payload, with_audit_event_hash,
}
use ano_pki_community.Audit.Verify.{
  audit_integrity_error, verify_audit_state, verify_audit_events, checkpoint_failure, verify_loop,
  empty_audit_chain_state, event_failure,
}
use ano_pki_community.Audit.Memory.{append_memory_audit_event}
use ano_pki_community.Store.State.{new_memory_store, within_tx, written}
use ano_pki_community.Store.Repository.{
  get_enrollment, get_identity, update_enrollment_if_status,
  create_audit_event as record_audit_event,
}
use ano_pki_community.Lifecycle.Services.Enrollments.{
  approve_enrollment_with_reason, reject_enrollment, approved_enrollment,
}
use ano_pki_community.Lifecycle.Services.Enrollments.Decisions.{
  decided_is_final, approve_enrollment_lem,
}
use ano_pki_community.Lifecycle.World.{Op, World, in_tx, bound, guard}
use ano_pki_community.Lifecycle.Services.{create_audit_event, add_identity_deployment_target}
use ano_pki_community.Lifecycle.Services.Certificates.Final.{IsRefused}
use ano_pki_community.Examples.Services.{service}

abbrev pub enrollment : EnrollmentStatus → Enrollment
enrollment status = record {
  id = "e1";
  identity_id = "identity-1";
  issuer_id = "issuer-1";
  certificate_profile_id = "profile-1";
  source_certificate_id = "";
  csr_pem = "pem";
  status = status;
  requested_subject = "CN=example";
  requested_dns_names = [];
  requested_ip_addresses = [];
  csr_dns_names = [];
  csr_ip_addresses = [];
  requested_not_after = 1000;
  approved_by = "";
  approved_at = 0;
  created_at = 1;
  updated_at = 1;
}

abbrev enrollment_world : EnrollmentStatus → World
enrollment_world status = record {
  store = record new_memory_store { enrollments = ("e1", enrollment status) ∷ [] };
  readings = 0;
  ids = 0;
}

pending_stored :
    lookup "e1" (enrollment_world EnrollmentStatus.pending).store.enrollments
    ≡ some (enrollment EnrollmentStatus.pending)
unfolding lookup
pending_stored = refl

abbrev approval : Op Enrollment
approval = approve_enrollment_with_reason service "operator" "e1" "checked"

approves :
    (approval (enrollment_world EnrollmentStatus.pending)).0
    ≡ ok (approved_enrollment (enrollment EnrollmentStatus.pending) "operator" 100)
unfolding bound guard written approve_enrollment_with_reason in_tx within_tx get_enrollment lookup
    insert EnrollmentStatus-discrete update_enrollment_if_status write_enrollment
    add_identity_deployment_target get_identity new_memory_store create_audit_event
    record_audit_event append_memory_audit_event audit_integrity_error verify_audit_state
    verify_audit_events checkpoint_failure verify_loop audit_event_hash canonical_audit_metadata
    hash_payload with_audit_event_hash is_audit_hash empty_audit_chain_state event_failure increment
approves = refl

approve_enrollment_lem_example :
    let old = enrollment EnrollmentStatus.pending in
    let next : Enrollment = record old {
      status = EnrollmentStatus.approved;
      approved_by = "operator";
      approved_at = 100;
      updated_at = 100;
    } in
    (old.status ≡ EnrollmentStatus.pending)
    × (approved_enrollment old "operator" 100 ≡ next)
    × (lookup "e1" (approval (enrollment_world EnrollmentStatus.pending)).1.store.enrollments
        ≡ some next)
unfolding bound guard written
approve_enrollment_lem_example =
    approve_enrollment_lem service "operator" "e1" "checked"
      (enrollment_world EnrollmentStatus.pending)
      (approval (enrollment_world EnrollmentStatus.pending)).1 (enrollment EnrollmentStatus.pending)
      (approved_enrollment (enrollment EnrollmentStatus.pending) "operator" 100) pending_stored refl
      (ap (λ r. (r, (approval (enrollment_world EnrollmentStatus.pending)).1)) approves)

decided_is_final_example :
    IsRefused
      (approve_enrollment_with_reason service "other" "e1" "again")
      (approval (enrollment_world EnrollmentStatus.pending)).1
    × IsRefused
        (reject_enrollment service "other" "e1")
        (approval (enrollment_world EnrollmentStatus.pending)).1
decided_is_final_example =
    decided_is_final service "operator" "checked" "other" "again" "e1"
      (enrollment_world EnrollmentStatus.pending)
      (approval (enrollment_world EnrollmentStatus.pending)).1 (enrollment EnrollmentStatus.pending)
      (approved_enrollment (enrollment EnrollmentStatus.pending) "operator" 100) refl pending_stored
      refl (inl (ap (λ r. (r, (approval (enrollment_world EnrollmentStatus.pending)).1)) approves))
