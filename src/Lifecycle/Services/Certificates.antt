-- ===== src/Lifecycle/Services/Certificates.antt =====
-- lifecycle/service.go: revoking, suspending and resuming a certificate. A reason of the enumeration is
-- one that isValidRevocationReason accepts.
pub mod Final
use ano_pki_community.Common.{
  String, Bool, true, false, List, [], ◌∷◌, ◌++◌, ◌&&◌, ◌||◌, not, is_yes, if◌then◌else◌, Time,
  Result, ok, err, Error,
}
use ano_pki_community.Domain.{
  Certificate, CertificateStatus, CertificateStatus-discrete, Revocation, RevocationReason,
}
use ano_pki_community.Store.Repository as Repository
use ano_pki_community.Lifecycle.World.{
  Op, return, ◌>>=◌, ◌>>◌, guard, repo, clock_now, fresh_id, in_tx,
}
use ano_pki_community.Lifecycle.Services.{
  Service, Fields, audit_fields, is_blank, create_audit_event, create_outbox_message,
  add_identity_deployment_target, add_status_transition,
}

abbrev certificate_status_text : CertificateStatus → String
certificate_status_text CertificateStatus.valid = "valid"
certificate_status_text CertificateStatus.suspended = "suspended"
certificate_status_text CertificateStatus.revoked = "revoked"
certificate_status_text CertificateStatus.expired = "expired"

abbrev pub is_status : CertificateStatus → CertificateStatus → Bool
is_status status wanted = is_yes (CertificateStatus-discrete status wanted)

unfoldable pub can_revoke_certificate_status : CertificateStatus → Bool → Bool
can_revoke_certificate_status status force =
    is_status status CertificateStatus.valid
    || (force && is_status status CertificateStatus.suspended)

abbrev revocation_reason_text : RevocationReason → String
revocation_reason_text RevocationReason.key_compromise = "key_compromise"
revocation_reason_text RevocationReason.ca_compromise = "ca_compromise"
revocation_reason_text RevocationReason.affiliation_changed = "affiliation_changed"
revocation_reason_text RevocationReason.superseded = "superseded"
revocation_reason_text RevocationReason.cessation_of_operation = "cessation_of_operation"
revocation_reason_text RevocationReason.privilege_withdrawn = "privilege_withdrawn"
revocation_reason_text RevocationReason.unspecified = "unspecified"

abbrev certificate_fields : Certificate → Fields
certificate_fields certificate =
    ("identity_id", certificate.identity_id)
    ∷ ("issuer_id", certificate.issuer_id)
    ∷ ("enrollment_id", certificate.enrollment_id)
    ∷ ("certificate_id", certificate.id)
    ∷ ("serial_number", certificate.serial_number)
    ∷ ("profile_id", certificate.certificate_profile_id)
    ∷ []

module _ (svc : Service) where
  -- The audit event and the outbox message of a change of status.
  abbrev announce :
      String → String → Certificate → CertificateStatus → Fields → Time → Op (Unit {0})
  announce actor action certificate previous fields now = do
    targeted ← add_identity_deployment_target certificate.identity_id fields
    let all =
        add_status_transition targeted (certificate_status_text previous)
          (certificate_status_text certificate.status)
    create_audit_event svc actor action "certificate" certificate.id now all
    create_outbox_message svc action now all

  unfoldable pub revoke_certificate : String → String → RevocationReason → Bool → Op Certificate
  revoke_certificate actor certificate_id reason force = do
    guard (is_blank svc certificate_id) Error.invalid_request
    now ← clock_now svc.environment
    in_tx (do
      current ← repo (Repository.get_certificate certificate_id)
      guard (not (can_revoke_certificate_status current.status force)) Error.invalid_transition
      let certificate = record current { status = CertificateStatus.revoked; updated_at = now }
      repo (Repository.update_certificate_if_status certificate current.status)
      id ← fresh_id svc.environment
      repo (
          Repository.create_revocation (record {
            id = id;
            certificate_id = certificate.id;
            reason = reason;
            revoked_by = actor;
            revoked_at = now;
            created_at = now;
          }))
      let action = if force then "certificate.force_revoked" else "certificate.revoked"
      announce actor action certificate current.status
          (audit_fields (
            certificate_fields certificate
            ++ ("revocation_reason", revocation_reason_text reason) ∷ []))
          now
      return certificate)

  unfoldable pub transition_certificate_status :
      String → String → CertificateStatus → CertificateStatus → String → Op Certificate
  transition_certificate_status actor certificate_id current_status next_status action = do
    now ← clock_now svc.environment
    in_tx (do
      current ← repo (Repository.get_certificate certificate_id)
      guard (not (is_status current.status current_status)) Error.invalid_transition
      let certificate = record current { status = next_status; updated_at = now }
      repo (Repository.update_certificate_if_status certificate current_status)
      announce actor action certificate current_status
          (audit_fields (certificate_fields certificate)) now
      return certificate)

  unfoldable pub suspend_certificate : String → String → Op Certificate
  suspend_certificate actor certificate_id = do
    guard (is_blank svc certificate_id) Error.invalid_request
    transition_certificate_status actor certificate_id CertificateStatus.valid
        CertificateStatus.suspended "certificate.suspended"

  unfoldable pub resume_certificate : String → String → Op Certificate
  resume_certificate actor certificate_id = do
    guard (is_blank svc certificate_id) Error.invalid_request
    transition_certificate_status actor certificate_id CertificateStatus.suspended
        CertificateStatus.valid "certificate.resumed"
