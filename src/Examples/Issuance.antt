-- ===== src/Examples/Issuance.antt =====
-- The finalization of a signed attempt, in a small world.
use ano_pki_community.Common.{◌≡◌, refl, true, false, some, [], ◌∷◌, lookup, insert, values, ok}
use ano_pki_community.Domain.{
  Certificate, EnrollmentStatus, EnrollmentStatus-discrete, IssuanceAttempt, IssuanceAttemptStatus,
  IssuanceAttemptStatus-discrete,
}
use ano_pki_community.Store.State.{new_memory_store, within_tx, written}
use ano_pki_community.Store.Issuance as Issuance
use ano_pki_community.Store.Certificates as Certificates
use ano_pki_community.Store.Repository.{
  get_enrollment, get_issuance_attempt, update_enrollment_if_status, create_certificate,
  update_issuance_attempt_if_current,
}
use ano_pki_community.Lifecycle.World.{World, in_tx, bound, guard}
use ano_pki_community.Lifecycle.Services.Issuance.{
  new_attempt, issued_certificate, enrollment_is, finalize_in_tx,
}
use ano_pki_community.Lifecycle.Services.Issuance.Finalized.{IsFinalized, finalize_in_tx_lem}
use ano_pki_community.Examples.Enrollments.{enrollment}

abbrev signed : IssuanceAttempt
signed = record (new_attempt "e1" 100) {
  status = IssuanceAttemptStatus.signed;
  certificate_id = "c1";
  serial_number = "01";
  certificate_pem = "pem";
}

abbrev signed_world : World
signed_world = record {
  store = record new_memory_store {
    enrollments = ("e1", enrollment EnrollmentStatus.approved) ∷ [];
    issuance_attempts = ("e1", signed) ∷ [];
  };
  readings = 0;
  ids = 0;
}

abbrev certificate : Certificate
certificate = issued_certificate (enrollment EnrollmentStatus.approved) signed 110

abbrev finalized_world : World
finalized_world = (finalize_in_tx "e1" signed 110 signed_world).1

enrollment_stored :
    lookup "e1" signed_world.store.enrollments ≡ some (enrollment EnrollmentStatus.approved)
unfolding lookup
enrollment_stored = refl

attempt_stored : lookup "e1" signed_world.store.issuance_attempts ≡ some signed
unfolding lookup
attempt_stored = refl

not_issued : enrollment_is EnrollmentStatus.issued (enrollment EnrollmentStatus.approved) ≡ false
unfolding EnrollmentStatus-discrete
not_issued = refl

finalizes : finalize_in_tx "e1" signed 110 signed_world ≡ (ok certificate, finalized_world)
unfolding bound guard written in_tx within_tx get_enrollment get_issuance_attempt
    update_enrollment_if_status create_certificate update_issuance_attempt_if_current
    Issuance.get_issuance_attempt Issuance.update_enrollment_if_status
    Issuance.update_issuance_attempt_if_current Certificates.create_certificate
    Certificates.ensure_certificate_finalization_keys_available lookup insert values
    new_memory_store EnrollmentStatus-discrete IssuanceAttemptStatus-discrete
finalizes = refl

finalize_in_tx_lem_example :
    (enrollment_is EnrollmentStatus.approved (enrollment EnrollmentStatus.approved) ≡ true)
    × IsFinalized
        (enrollment EnrollmentStatus.approved)
        signed
        signed
        110
        certificate
        finalized_world
finalize_in_tx_lem_example =
    finalize_in_tx_lem "e1" signed signed 110 (enrollment EnrollmentStatus.approved) signed_world
      finalized_world certificate enrollment_stored not_issued attempt_stored finalizes
