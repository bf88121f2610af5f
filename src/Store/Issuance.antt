-- ===== src/Store/Issuance.antt =====
-- memory.go: the maps of enrollments and of issuance attempts, one attempt to an enrollment.
use ano_pki_community.Common.{
  String, Option, none, some, ◌&&◌, not, is_yes, GoMap, lookup, insert, equal, Bool, Result, ok,
  err, Error, or_fail, ◌>>=◌, ◌>>◌, reject_if,
}
use ano_pki_community.Domain.{
  Enrollment, EnrollmentStatus, EnrollmentStatus-discrete, IssuanceAttempt,
  IssuanceAttemptStatus-discrete,
}

abbrev pub enrollment_has : EnrollmentStatus → Enrollment → Bool
enrollment_has s e = is_yes (EnrollmentStatus-discrete e.status s)

-- The body of UpdateEnrollment.
unfoldable pub update_enrollment : GoMap Enrollment → Enrollment → Result (GoMap Enrollment)
update_enrollment enrollments e = do
  _ ← or_fail (lookup e.id enrollments) Error.enrollment_not_found
  ok (insert e.id e enrollments)

unfoldable pub update_enrollment_if_status :
    GoMap Enrollment → Enrollment → EnrollmentStatus → Result (GoMap Enrollment)
update_enrollment_if_status enrollments e current_status = do
  current ← or_fail (lookup e.id enrollments) Error.enrollment_not_found
  reject_if (not (enrollment_has current_status current)) Error.invalid_transition
  ok (insert e.id e enrollments)

abbrev reject_present : Option IssuanceAttempt → Result (Unit {0})
reject_present none = ok tt
reject_present (some _) = err Error.invalid_transition

unfoldable pub create_issuance_attempt :
    GoMap IssuanceAttempt → IssuanceAttempt → Result (GoMap IssuanceAttempt)
create_issuance_attempt attempts attempt = do
  reject_present (lookup attempt.enrollment_id attempts)
  ok (insert attempt.enrollment_id attempt attempts)

unfoldable pub get_issuance_attempt : GoMap IssuanceAttempt → String → Result IssuanceAttempt
get_issuance_attempt attempts enrollment_id =
    or_fail (lookup enrollment_id attempts) Error.issuance_attempt_not_found

-- The stored attempt is the one that the caller has read: the guard of a conditional write.
abbrev pub same_attempt : IssuanceAttempt → IssuanceAttempt → Bool
same_attempt stored current =
    is_yes (IssuanceAttemptStatus-discrete stored.status current.status)
    && equal stored.lease_expires_at current.lease_expires_at
    && equal stored.updated_at current.updated_at

unfoldable pub update_issuance_attempt_if_current :
    GoMap IssuanceAttempt → IssuanceAttempt → IssuanceAttempt → Result (GoMap IssuanceAttempt)
update_issuance_attempt_if_current attempts attempt current = do
  stored ← or_fail (lookup attempt.enrollment_id attempts) Error.issuance_attempt_not_found
  reject_if (not (same_attempt stored current)) Error.invalid_transition
  ok (insert attempt.enrollment_id attempt attempts)
