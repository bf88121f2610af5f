-- ===== src/Lifecycle/Services/Scans.antt =====
-- lifecycle/service.go: ScanCertificateExpirations, which marks certificates as expired and warns before
-- others do. A request's window and limit are not negative here; the text of the window in seconds is the
-- argument `seconds`.
pub mod Found
use ano_pki_community.Common.{
  String, ℕ, Bool, true, false, List, [], ◌∷◌, ◌++◌, ◌&&◌, ◌||◌, not, if◌then◌else◌, leb, ◌+◌, Time,
  Duration, is_zero_time, after, Result, ok, err, Error,
}
use ano_pki_community.Domain.{Certificate, CertificateStatus}
use ano_pki_community.Store.Certificates.{has_status}
use ano_pki_community.Store.Repository as Repository
use ano_pki_community.Lifecycle.World.{
  Op, return, fail, ◌>>=◌, ◌>>◌, guard, attempt, repo, clock_now, in_tx,
}
use ano_pki_community.Lifecycle.Services.{
  Service, Fields, audit_fields, create_audit_event, create_outbox_message,
  add_identity_deployment_target,
}

pub record ScanCertificateExpirationsRequest : Type 0 where
  pub warning_window : Duration
  pub limit : ℕ

pub record CertificateExpirationScanResult : Type 0 where
  pub expired : List Certificate
  pub expiration_warnings : List Certificate

unfoldable pub certificate_is_expired_candidate : Certificate → Time → Bool
certificate_is_expired_candidate c now =
    (has_status CertificateStatus.valid c || has_status CertificateStatus.suspended c)
    && not (after c.not_after now)

unfoldable pub certificate_needs_renewal_warning : Certificate → Time → Time → Bool
certificate_needs_renewal_warning c now warning_before =
    has_status CertificateStatus.valid c
    && after c.not_after now
    && not (after c.not_after warning_before)
    && is_zero_time c.renewal_notified_at

abbrev pub expired_certificate : Certificate → Time → Certificate
expired_certificate c now = record c { status = CertificateStatus.expired; updated_at = now }

abbrev pub warned_certificate : Certificate → Time → Certificate
warned_certificate c now = record c { renewal_notified_at = now; updated_at = now }

abbrev pub add_expired :
    Bool → Certificate → CertificateExpirationScanResult → CertificateExpirationScanResult
add_expired true c result = record result { expired = result.expired ++ c ∷ [] }
add_expired false c result = result

abbrev pub add_warning :
    Bool → Certificate → CertificateExpirationScanResult → CertificateExpirationScanResult
add_warning true c result = record result {
  expiration_warnings = result.expiration_warnings ++ c ∷ [];
}
add_warning false c result = result

abbrev pub is_certificate_lost : Error → Bool
is_certificate_lost Error.invalid_transition = true
is_certificate_lost _ = false

module _ (svc : Service) (seconds : Duration → String) (actor : String) where
  unfoldable pub certificate_expiration_audit_fields : Certificate → Duration → Fields
  certificate_expiration_audit_fields c window =
      audit_fields (
        ("identity_id", c.identity_id)
        ∷ ("issuer_id", c.issuer_id)
        ∷ ("enrollment_id", c.enrollment_id)
        ∷ ("certificate_id", c.id)
        ∷ ("serial_number", c.serial_number)
        ∷ ("profile_id", c.certificate_profile_id)
        ∷ [])
      ++ ("not_after", svc.format_time c.not_after)
        ∷ ("warning_window_seconds", seconds window)
        ∷ []

  abbrev pub announce_scanned : String → Certificate → Duration → Time → Op Bool
  announce_scanned action updated window now = do
    fields ←
        add_identity_deployment_target updated.identity_id
          (certificate_expiration_audit_fields updated window)
    create_audit_event svc actor action "certificate" updated.id now fields
    create_outbox_message svc action now fields
    return true

  -- The Boolean is false for a certificate that another call has changed, which the loop leaves out.
  abbrev pub after_write : String → Certificate → Duration → Time → Result (Unit {0}) → Op Bool
  after_write action updated window now (ok u) = announce_scanned action updated window now
  after_write action updated window now (err x) =
      if is_certificate_lost x then return false else fail x

  abbrev pub write_scanned : String → Certificate → CertificateStatus → Duration → Time → Op Bool
  write_scanned action updated current window now = do
    wrote ← attempt (repo (Repository.update_certificate_if_status updated current))
    after_write action updated window now wrote

  unfoldable pub scan_loop :
      Duration
      → Time
      → List Certificate
      → CertificateExpirationScanResult
      → Op CertificateExpirationScanResult
  scan_loop window now [] result = return result
  scan_loop window now (c ∷ candidates) result =
      let rest = scan_loop window now candidates in
      if certificate_is_expired_candidate c now
      then (write_scanned "certificate.expired" (expired_certificate c now) c.status window now
          >>= λ done. rest (add_expired done (expired_certificate c now) result))
      else if certificate_needs_renewal_warning c now (now + window)
      then (write_scanned "certificate.expiration_warning" (warned_certificate c now)
            CertificateStatus.valid window now
          >>= λ done. rest (add_warning done (warned_certificate c now) result))
      else rest result

  unfoldable pub scan_certificate_expirations :
      ScanCertificateExpirationsRequest → Op CertificateExpirationScanResult
  scan_certificate_expirations req = do
    guard (leb req.limit 0) Error.invalid_request
    now ← clock_now svc.environment
    in_tx (do
      candidates ← repo (
          Repository.list_certificates_for_expiration_scan now (now + req.warning_window) req.limit)
      scan_loop req.warning_window now candidates
          (record { expired = []; expiration_warnings = [] }))
