-- ===== src/Store/Repository/Pki.antt =====
-- memory.go: enrollments, certificates, issuance attempts, revocations and CRLs, as methods of MemoryStore. Those of memoryTx have the same bodies.
use ano_pki_community.Common.{String, List, lookup, insert, values, ℕ, Time, ok, Error, or_fail}
use ano_pki_community.Domain.{
  Enrollment, EnrollmentStatus, Certificate, CertificateStatus, IssuanceAttempt, Revocation,
  RevokedCertificateEntry, CrlPublication, CrlGenerationClaim,
}
use ano_pki_community.Store.Certificates as Certificates
use ano_pki_community.Store.Issuance as Issuance
use ano_pki_community.Store.Crls as Crls
use ano_pki_community.Store.State.{Repo, read, written}

unfoldable pub create_enrollment : Enrollment → Repo (Unit {0})
create_enrollment enrollment s =
    (ok tt, record s { enrollments = insert enrollment.id enrollment s.enrollments })

unfoldable pub get_enrollment : String → Repo Enrollment
get_enrollment id = read λ s. or_fail (lookup id s.enrollments) Error.enrollment_not_found

unfoldable pub list_enrollments : Repo (List Enrollment)
list_enrollments = read λ s. ok (values s.enrollments)

unfoldable pub update_enrollment : Enrollment → Repo (Unit {0})
update_enrollment enrollment s =
    written s (λ m. record s { enrollments = m })
      (Issuance.update_enrollment s.enrollments enrollment)

unfoldable pub update_enrollment_if_status : Enrollment → EnrollmentStatus → Repo (Unit {0})
update_enrollment_if_status enrollment current_status s =
    written s (λ m. record s { enrollments = m })
      (Issuance.update_enrollment_if_status s.enrollments enrollment current_status)

unfoldable pub create_certificate : Certificate → Repo (Unit {0})
create_certificate certificate s =
    written s (λ m. record s { certificates = m })
      (Certificates.create_certificate s.certificates certificate)

unfoldable pub get_certificate : String → Repo Certificate
get_certificate id = read λ s. or_fail (lookup id s.certificates) Error.certificate_not_found

unfoldable pub get_certificate_by_enrollment_id : String → Repo Certificate
get_certificate_by_enrollment_id enrollment_id =
    read λ s. Certificates.certificate_by_enrollment_id s.certificates enrollment_id

unfoldable pub list_certificates : Repo (List Certificate)
list_certificates = read λ s. ok (values s.certificates)

unfoldable pub list_certificates_expiring_within : Time → Time → ℕ → ℕ → Repo (List Certificate)
list_certificates_expiring_within now cutoff limit offset =
    read λ s.
      ok (Certificates.list_certificates_expiring_within s.certificates now cutoff limit offset)

unfoldable pub list_certificates_for_expiration_scan : Time → Time → ℕ → Repo (List Certificate)
list_certificates_for_expiration_scan now warning_before limit = read λ s.
    ok (Certificates.list_certificates_for_expiration_scan s.certificates now warning_before limit)

unfoldable pub update_certificate : Certificate → Repo (Unit {0})
update_certificate certificate s =
    written s (λ m. record s { certificates = m })
      (Certificates.update_certificate s.certificates certificate)

unfoldable pub update_certificate_if_status : Certificate → CertificateStatus → Repo (Unit {0})
update_certificate_if_status certificate current_status s =
    written s (λ m. record s { certificates = m })
      (Certificates.update_certificate_if_status s.certificates certificate current_status)

unfoldable pub create_issuance_attempt : IssuanceAttempt → Repo (Unit {0})
create_issuance_attempt attempt s =
    written s (λ m. record s { issuance_attempts = m })
      (Issuance.create_issuance_attempt s.issuance_attempts attempt)

unfoldable pub get_issuance_attempt : String → Repo IssuanceAttempt
get_issuance_attempt enrollment_id =
    read λ s. Issuance.get_issuance_attempt s.issuance_attempts enrollment_id

unfoldable pub update_issuance_attempt_if_current :
    IssuanceAttempt → IssuanceAttempt → Repo (Unit {0})
update_issuance_attempt_if_current attempt current s =
    written s (λ m. record s { issuance_attempts = m })
      (Issuance.update_issuance_attempt_if_current s.issuance_attempts attempt current)

unfoldable pub create_revocation : Revocation → Repo (Unit {0})
create_revocation revocation s =
    (ok tt, record s { revocations = insert revocation.id revocation s.revocations })

unfoldable pub list_revocations_by_issuer : String → Repo (List RevokedCertificateEntry)
list_revocations_by_issuer issuer_id =
    read λ s. ok (Certificates.list_revocations_by_issuer s.certificates s.revocations issuer_id)

unfoldable pub create_crl_publication : CrlPublication → Repo (Unit {0})
create_crl_publication publication s =
    written s (λ m. record s { crls = m }) (Crls.create_crl_publication s.crls publication)

unfoldable pub get_crl_publication : String → Repo CrlPublication
get_crl_publication id = read λ s. or_fail (lookup id s.crls) Error.crl_publication_not_found

unfoldable pub get_latest_crl_publication_by_issuer : String → Repo CrlPublication
get_latest_crl_publication_by_issuer issuer_id =
    read λ s. Crls.latest_crl_publication_by_issuer s.crls issuer_id

unfoldable pub list_crl_publications_by_issuer : String → Repo (List CrlPublication)
list_crl_publications_by_issuer issuer_id =
    read λ s. ok (Crls.list_crl_publications_by_issuer s.crls issuer_id)

unfoldable pub create_crl_generation_claim : CrlGenerationClaim → Repo (Unit {0})
create_crl_generation_claim claim s =
    written s (λ m. record s { crl_claims = m })
      (Crls.create_crl_generation_claim s.crl_claims claim)

unfoldable pub get_crl_generation_claim : String → String → Repo CrlGenerationClaim
get_crl_generation_claim issuer_id distribution_point =
    read λ s. Crls.get_crl_generation_claim s.crl_claims issuer_id distribution_point

unfoldable pub update_crl_generation_claim_if_current :
    CrlGenerationClaim → CrlGenerationClaim → Repo (Unit {0})
update_crl_generation_claim_if_current claim current s =
    written s (λ m. record s { crl_claims = m })
      (Crls.update_crl_generation_claim_if_current s.crl_claims claim current)

unfoldable pub delete_crl_generation_claim_if_current : CrlGenerationClaim → Repo (Unit {0})
delete_crl_generation_claim_if_current current s =
    written s (λ m. record s { crl_claims = m })
      (Crls.delete_crl_generation_claim_if_current s.crl_claims current)
