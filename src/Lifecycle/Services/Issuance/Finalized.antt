-- ===== src/Lifecycle/Services/Issuance/Finalized.antt =====
-- service.go: what a finalized issuance attempt leaves: the certificate, the enrollment and the attempt.
use ano_pki_community.Common.{
  String, ◌≡◌, refl, ap, sym, ◌∙◌, arith, Bool, true, false, not, ◌||◌, true_of_not, some, GoMap,
  lookup, insert, lookup-insert_self, Time, ok, Error, conditional_ok, eq_iff,
}
use ano_pki_community.Domain.{
  Certificate, CertificateStatus, Enrollment, EnrollmentStatus, IssuanceAttempt,
  IssuanceAttemptStatus,
}
use ano_pki_community.Store.Issuance as Issuance
use ano_pki_community.Store.Certificates as Certificates
use ano_pki_community.Store.Repository.{
  get_enrollment, get_issuance_attempt, update_enrollment_if_status, create_certificate,
  update_issuance_attempt_if_current,
}
use ano_pki_community.Lifecycle.World.{World}
use ano_pki_community.Lifecycle.World.Ensures.{
  Ensures, Ensures-ok, Ensures-in_tx, Ensures-guard, Ensures-return, Ensures-known, Ensures-written,
}
use ano_pki_community.Lifecycle.Services.Issuance.{
  attempt_is, enrollment_is, issued_certificate, finalize_approved, finalize_in_tx,
}

update_enrollment-inserted :
    (e : Enrollment) (status : EnrollmentStatus) (m m' : GoMap Enrollment)
    → Issuance.update_enrollment_if_status m e status ≡ ok m'
    → m' ≡ insert e.id e m
unfolding Issuance.update_enrollment_if_status
update_enrollment-inserted e status m m' h =
    let (old, found, same, at) =
      conditional_ok (lookup e.id m) Error.enrollment_not_found
        (λ old. not (Issuance.enrollment_has status old)) Error.invalid_transition (insert e.id e m)
        m' h in
    sym at

update_attempt-inserted :
    (a current : IssuanceAttempt) (m m' : GoMap IssuanceAttempt)
    → Issuance.update_issuance_attempt_if_current m a current ≡ ok m'
    → m' ≡ insert a.enrollment_id a m
unfolding Issuance.update_issuance_attempt_if_current
update_attempt-inserted a current m m' h =
    let (old, found, same, at) =
      conditional_ok (lookup a.enrollment_id m) Error.issuance_attempt_not_found
        (λ old. not (Issuance.same_attempt old current)) Error.invalid_transition
        (insert a.enrollment_id a m) m' h in
    sym at

create_certificate-inserted :
    (c : Certificate) (m m' : GoMap Certificate)
    → Certificates.create_certificate m c ≡ ok m'
    → m' ≡ insert c.id c m
unfolding Certificates.create_certificate
create_certificate-inserted c m m' h = ground arith

abbrev pub issued_enrollment : Enrollment → Time → Enrollment
issued_enrollment e now = record e { status = EnrollmentStatus.issued; updated_at = now }

abbrev pub finalized_attempt : IssuanceAttempt → Time → IssuanceAttempt
finalized_attempt a now = record a {
  status = IssuanceAttemptStatus.finalized;
  finalized_at = now;
  updated_at = now;
}

-- All three writes of a finalized attempt for the enrollment `e`, with the stored attempt `current`.
abbrev pub IsFinalized :
    Enrollment → IssuanceAttempt → IssuanceAttempt → Time → Certificate → World → Type 0
IsFinalized e signed current now c w =
    (attempt_is IssuanceAttemptStatus.signed current ≡ true)
    × (current.certificate_id ≡ signed.certificate_id)
    × (current.serial_number ≡ signed.serial_number)
    × (c ≡ record {
      id = current.certificate_id;
      identity_id = e.identity_id;
      issuer_id = e.issuer_id;
      enrollment_id = e.id;
      certificate_profile_id = e.certificate_profile_id;
      serial_number = current.serial_number;
      subject = current.subject;
      dns_names = e.requested_dns_names;
      ip_addresses = e.requested_ip_addresses;
      not_before = current.not_before;
      not_after = current.not_after;
      status = CertificateStatus.valid;
      certificate_pem = current.certificate_pem;
      renewal_notified_at = 0;
      created_at = now;
      updated_at = now;
    })
    × (lookup e.id w.store.enrollments ≡ some (issued_enrollment e now))
    × (lookup c.id w.store.certificates ≡ some c)
    × (lookup current.enrollment_id w.store.issuance_attempts
        ≡ some (finalized_attempt current now))

three_true :
    (a b c : Bool) → (not a || not b || not c) ≡ false → (a ≡ true) × (b ≡ true) × (c ≡ true)
three_true a b c h = ground arith

finalize_approved-IsFinalized :
    (id : String) (signed current : IssuanceAttempt) (now : Time) (e : Enrollment) (w : World)
    → lookup id w.store.issuance_attempts ≡ some current
    → Ensures
        (λ c v.
          (enrollment_is EnrollmentStatus.approved e ≡ true) × IsFinalized e signed current now c v)
        (finalize_approved id signed now e w)
unfolding get_issuance_attempt Issuance.get_issuance_attempt update_enrollment_if_status
    create_certificate update_issuance_attempt_if_current
finalize_approved-IsFinalized id signed current now e w found =
    let Q : Certificate → World → Type 0 = λ c v.
      (enrollment_is EnrollmentStatus.approved e ≡ true) × IsFinalized e signed current now c v in
    let c = issued_certificate e current now in
    Ensures-guard Q _ _ _ w λ approved. Ensures-known Q _ _ current _ _ found (
      Ensures-guard Q _ _ _ w λ bad. Ensures-written Q _ _ _ w λ m1 wrote1.
        Ensures-written Q _ _ _ _ λ m2 wrote2. Ensures-written Q _ _ _ _ λ m3 wrote3.
          let (is_signed, same_id, same_serial) = three_true _ _ _ bad in
          Ensures-return Q c _ (
            true_of_not _ approved,
            (
              is_signed,
              (eq_iff _ _).0 same_id,
              (eq_iff _ _).0 same_serial,
              refl,
              ap (lookup e.id) (update_enrollment-inserted (issued_enrollment e now) _ _ m1 wrote1)
                  ∙ lookup-insert_self e.id (issued_enrollment e now) w.store.enrollments,
              ap (lookup c.id) (create_certificate-inserted c _ m2 wrote2)
                  ∙ lookup-insert_self c.id c w.store.certificates,
              ap (lookup current.enrollment_id)
                    (update_attempt-inserted (finalized_attempt current now) current _ m3 wrote3)
                  ∙ lookup-insert_self current.enrollment_id (finalized_attempt current now)
                      w.store.issuance_attempts,
            ),
          ))

-- The transaction that finalizes a signed attempt of an enrollment that is not issued yet. If it returns
-- a certificate, the enrollment was approved, the stored attempt was signed with the same certificate id
-- and serial number as the caller's, and all three writes are there: the enrollment is issued, the
-- certificate is stored under its id, made of the enrollment and the attempt, and the attempt is
-- finalized.
pub finalize_in_tx_lem :
    (id : String) (signed current : IssuanceAttempt) (now : Time) (e : Enrollment) (w w' : World)
    (c : Certificate)
    → lookup id w.store.enrollments ≡ some e
    → enrollment_is EnrollmentStatus.issued e ≡ false
    → lookup id w.store.issuance_attempts ≡ some current
    → finalize_in_tx id signed now w ≡ (ok c, w')
    → (enrollment_is EnrollmentStatus.approved e ≡ true) × IsFinalized e signed current now c w'
unfolding get_enrollment
finalize_in_tx_lem id signed current now e w w' c found open_ stored h =
    let Q : Certificate → World → Type 0 = λ c v.
      (enrollment_is EnrollmentStatus.approved e ≡ true) × IsFinalized e signed current now c v in
    Ensures-ok Q _ c w'
      (Ensures-in_tx Q _ w (
        Ensures-known Q _ _ e _ _ found
          (rw open_ (finalize_approved-IsFinalized id signed current now e w stored))))
      h
