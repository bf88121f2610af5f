-- ===== src/Lifecycle/Services/Enrollments.antt =====
-- lifecycle/service.go: approving and rejecting a pending enrollment.
pub mod Decisions
use ano_pki_community.Common.{
  String, Bool, true, false, List, [], ◌∷◌, ◌++◌, not, is_yes, if◌then◌else◌, Time, Error,
}
use ano_pki_community.Domain.{Enrollment, EnrollmentStatus, EnrollmentStatus-discrete}
use ano_pki_community.Store.Repository as Repository
use ano_pki_community.Lifecycle.World.{Op, return, ◌>>=◌, ◌>>◌, guard, repo, clock_now, in_tx}
use ano_pki_community.Lifecycle.Services.{
  Service, Fields, audit_fields, is_blank, create_audit_event, add_identity_deployment_target,
  add_status_transition,
}

abbrev pub is_pending : Enrollment → Bool
is_pending e = is_yes (EnrollmentStatus-discrete e.status EnrollmentStatus.pending)

abbrev pub enrollment_fields : Enrollment → String → Fields
enrollment_fields e new_status =
    add_status_transition
      (audit_fields (
        ("identity_id", e.identity_id)
        ∷ ("issuer_id", e.issuer_id)
        ∷ ("enrollment_id", e.id)
        ∷ ("profile_id", e.certificate_profile_id)
        ∷ []))
      "pending" new_status

abbrev pub approved_enrollment : Enrollment → String → Time → Enrollment
approved_enrollment e actor now = record e {
  status = EnrollmentStatus.approved;
  approved_by = actor;
  approved_at = now;
  updated_at = now;
}

abbrev pub rejected_enrollment : Enrollment → Time → Enrollment
rejected_enrollment e now = record e { status = EnrollmentStatus.rejected; updated_at = now }

abbrev pub with_reason : Service → Fields → String → Fields
with_reason svc fields reason =
    if is_blank svc reason
    then fields
    else fields ++ ("approval_reason", svc.trim_space reason) ∷ []

module _ (svc : Service) where
  abbrev pub approve_pending : String → String → Time → Enrollment → Op Enrollment
  approve_pending actor reason now current = do
    guard (not (is_pending current)) Error.invalid_transition
    let enrollment = approved_enrollment current actor now
    repo (Repository.update_enrollment_if_status enrollment EnrollmentStatus.pending)
    fields ←
        add_identity_deployment_target enrollment.identity_id
          (enrollment_fields enrollment "approved")
    create_audit_event svc actor "enrollment.approved" "enrollment" enrollment.id now
        (with_reason svc fields reason)
    return enrollment

  unfoldable pub approve_enrollment_with_reason : String → String → String → Op Enrollment
  approve_enrollment_with_reason actor id reason = do
    guard (is_blank svc id) Error.invalid_request
    now ← clock_now svc.environment
    in_tx
        (do current ← repo (Repository.get_enrollment id); approve_pending actor reason now current)

  abbrev pub reject_pending : String → Time → Enrollment → Op Enrollment
  reject_pending actor now current = do
    guard (not (is_pending current)) Error.invalid_transition
    let enrollment = rejected_enrollment current now
    repo (Repository.update_enrollment_if_status enrollment EnrollmentStatus.pending)
    fields ←
        add_identity_deployment_target enrollment.identity_id
          (enrollment_fields enrollment "rejected")
    create_audit_event svc actor "enrollment.rejected" "enrollment" enrollment.id now fields
    return enrollment

  unfoldable pub reject_enrollment : String → String → Op Enrollment
  reject_enrollment actor id = do
    guard (is_blank svc id) Error.invalid_request
    now ← clock_now svc.environment
    in_tx (do current ← repo (Repository.get_enrollment id); reject_pending actor now current)
