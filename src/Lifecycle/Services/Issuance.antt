-- ===== src/Lifecycle/Services/Issuance.antt =====
-- lifecycle/service.go: an issuance attempt from its claim to the stored certificate. The signer works
-- between the claim and `persist_signed_issuance_attempt`, outside every transaction.
pub mod Leases
pub mod Finalized
use ano_pki_community.Common.{
  String, Bool, true, false, Option, List, [], ◌==◌, ◌&&◌, ◌||◌, not, is_yes, ◌+◌, ◌*◌, after, Time,
  Duration, minute, zero_time, Result, ok, err, Error, or_fail, if◌then◌else◌,
}
use ano_pki_community.Domain.{
  Certificate, CertificateStatus, Enrollment, EnrollmentStatus, EnrollmentStatus-discrete,
  IssuanceAttempt, IssuanceAttemptStatus, IssuanceAttemptStatus-discrete,
}
use ano_pki_community.Store.Repository as Repository
use ano_pki_community.Lifecycle.World.{
  Environment, Op, return, fail, lift, ◌>>=◌, ◌>>◌, guard, attempt, repo, fresh_id, in_tx,
}

abbrev pub default_issuance_signing_lease : Duration
default_issuance_signing_lease = 5 * minute

-- What the signer returns. `evidence_json` is json.Marshal of its evidence.
pub record IssueResult : Type 0 where
  pub certificate_pem : String
  pub serial_number : String
  pub subject : String
  pub not_before : Time
  pub not_after : Time
  pub evidence_json : Option String

abbrev pub new_attempt : String → Time → IssuanceAttempt
new_attempt enrollment_id now = record {
  enrollment_id = enrollment_id;
  status = IssuanceAttemptStatus.signing;
  lease_expires_at = now + default_issuance_signing_lease;
  certificate_id = "";
  certificate_pem = "";
  serial_number = "";
  subject = "";
  not_before = zero_time;
  not_after = zero_time;
  signing_started_at = now;
  signed_at = zero_time;
  finalized_at = zero_time;
  last_error = "";
  signing_evidence_json = "";
  created_at = now;
  updated_at = now;
}

abbrev pub signing_again : IssuanceAttempt → Time → IssuanceAttempt
signing_again current now = record current {
  status = IssuanceAttemptStatus.signing;
  lease_expires_at = now + default_issuance_signing_lease;
  signing_started_at = now;
  last_error = "";
  updated_at = now;
}

abbrev pub take_over : IssuanceAttempt → Time → Op (IssuanceAttempt × Bool)
take_over current now = do
  repo (Repository.update_issuance_attempt_if_current (signing_again current now) current)
  return (signing_again current now, true)

-- `switch current.Status`.
abbrev pub claim_by_status :
    IssuanceAttemptStatus → IssuanceAttempt → Time → Op (IssuanceAttempt × Bool)
claim_by_status IssuanceAttemptStatus.signed current now = return (current, false)
claim_by_status IssuanceAttemptStatus.finalized current now = return (current, false)
claim_by_status IssuanceAttemptStatus.signing current now = do
  guard (after current.lease_expires_at now) Error.invalid_transition
  take_over current now
claim_by_status IssuanceAttemptStatus.failed current now = take_over current now

abbrev pub claim_found : String → Time → Result IssuanceAttempt → Op (IssuanceAttempt × Bool)
claim_found enrollment_id now (ok current) = claim_by_status current.status current now
claim_found enrollment_id now (err Error.issuance_attempt_not_found) = do
  repo (Repository.create_issuance_attempt (new_attempt enrollment_id now))
  return (new_attempt enrollment_id now, true)
claim_found enrollment_id now (err e) = fail e

-- The Boolean is `shouldSign`.
unfoldable pub claim_issuance_attempt : String → Time → Op (IssuanceAttempt × Bool)
claim_issuance_attempt enrollment_id now = in_tx (do
  found ← attempt (repo (Repository.get_issuance_attempt enrollment_id))
  claim_found enrollment_id now found)

unfoldable pub persist_signed_issuance_attempt :
    Environment → IssuanceAttempt → IssueResult → Time → Op IssuanceAttempt
persist_signed_issuance_attempt env current result now = do
  certificate_id ← fresh_id env
  evidence_json ← lift (or_fail result.evidence_json (Error.other_error "encode signing evidence"))
  let signed = record current {
    status = IssuanceAttemptStatus.signed;
    lease_expires_at = zero_time;
    certificate_id = certificate_id;
    certificate_pem = result.certificate_pem;
    serial_number = result.serial_number;
    subject = result.subject;
    not_before = result.not_before;
    not_after = result.not_after;
    signed_at = now;
    last_error = "";
    signing_evidence_json = evidence_json;
    updated_at = now;
  }
  in_tx (repo (Repository.update_issuance_attempt_if_current signed current))
  return signed

abbrev pub attempt_is : IssuanceAttemptStatus → IssuanceAttempt → Bool
attempt_is status a = is_yes (IssuanceAttemptStatus-discrete a.status status)

abbrev pub enrollment_is : EnrollmentStatus → Enrollment → Bool
enrollment_is status e = is_yes (EnrollmentStatus-discrete e.status status)

abbrev pub issued_certificate : Enrollment → IssuanceAttempt → Time → Certificate
issued_certificate enrollment signed now = record {
  id = signed.certificate_id;
  identity_id = enrollment.identity_id;
  issuer_id = enrollment.issuer_id;
  enrollment_id = enrollment.id;
  certificate_profile_id = enrollment.certificate_profile_id;
  serial_number = signed.serial_number;
  subject = signed.subject;
  dns_names = enrollment.requested_dns_names;
  ip_addresses = enrollment.requested_ip_addresses;
  not_before = signed.not_before;
  not_after = signed.not_after;
  status = CertificateStatus.valid;
  certificate_pem = signed.certificate_pem;
  renewal_notified_at = zero_time;
  created_at = now;
  updated_at = now;
}

-- The transaction behind the check of an issued enrollment.
abbrev pub finalize_approved : String → IssuanceAttempt → Time → Enrollment → Op Certificate
finalize_approved enrollment_id signed now enrollment = do
  guard (not (enrollment_is EnrollmentStatus.approved enrollment)) Error.invalid_transition
  current ← repo (Repository.get_issuance_attempt enrollment_id)
  guard
      (not (attempt_is IssuanceAttemptStatus.signed current)
        || not (current.certificate_id == signed.certificate_id)
        || not (current.serial_number == signed.serial_number))
      Error.invalid_transition
  repo (
      Repository.update_enrollment_if_status
        (record enrollment { status = EnrollmentStatus.issued; updated_at = now })
        EnrollmentStatus.approved)
  repo (Repository.create_certificate (issued_certificate enrollment current now))
  repo (
      Repository.update_issuance_attempt_if_current
        (record current {
          status = IssuanceAttemptStatus.finalized;
          finalized_at = now;
          updated_at = now;
        })
        current)
  return (issued_certificate enrollment current now)

abbrev pub finalize_in_tx : String → IssuanceAttempt → Time → Op Certificate
finalize_in_tx enrollment_id signed now = in_tx (do
  enrollment ← repo (Repository.get_enrollment enrollment_id)
  if enrollment_is EnrollmentStatus.issued enrollment
      then repo (Repository.get_certificate_by_enrollment_id enrollment_id)
      else finalize_approved enrollment_id signed now enrollment)

abbrev failed_attempt : IssuanceAttempt → String → Time → IssuanceAttempt
failed_attempt signed text now = record signed {
  status = IssuanceAttemptStatus.failed;
  last_error = text;
  updated_at = now;
}

-- What is done about a lost transition: the certificate that another call has stored, or the attempt
-- marked as failed. The text is that of ErrInvalidTransition.
abbrev pub after_lost : IssuanceAttempt → Time → Result Certificate → Op Certificate
after_lost signed now (ok existing) = return existing
after_lost signed now (err Error.certificate_not_found) = do
  in_tx (
      repo (
        Repository.update_issuance_attempt_if_current
          (failed_attempt signed "invalid lifecycle transition" now) signed))
  fail Error.invalid_transition
after_lost signed now (err e) = fail e

abbrev pub after_finalize : String → IssuanceAttempt → Time → Result Certificate → Op Certificate
after_finalize enrollment_id signed now (ok certificate) = return certificate
after_finalize enrollment_id signed now (err Error.invalid_transition) = do
  found ← attempt (repo (Repository.get_certificate_by_enrollment_id enrollment_id))
  after_lost signed now found
after_finalize enrollment_id signed now (err e) = fail e

unfoldable pub finalize_signed_issuance_attempt : String → IssuanceAttempt → Time → Op Certificate
finalize_signed_issuance_attempt enrollment_id signed now =
    if attempt_is IssuanceAttemptStatus.finalized signed
    then repo (Repository.get_certificate_by_enrollment_id enrollment_id)
    else (do
      guard (not (attempt_is IssuanceAttemptStatus.signed signed)) Error.invalid_transition
      outcome ← attempt (finalize_in_tx enrollment_id signed now)
      after_finalize enrollment_id signed now outcome)
