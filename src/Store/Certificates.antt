-- ===== src/Store/Certificates.antt =====
-- memory.go: the map of certificates, its scans and lists, and the revocations of an issuer.
pub mod Keys
use ano_pki_community.Common.{
  String, Bool, Option, none, some, List, [], ◌∷◌, ◌==◌, ◌&&◌, ◌||◌, not, if◌then◌else◌, is_yes,
  GoMap, lookup, insert, values, select, any, take, drop, ltb, ℕ, Time, sort_slice, earlier, after,
  is_zero_time, Result, ok, Error, or_fail, ◌>>=◌, ◌>>◌, reject_if,
}
use ano_pki_community.Domain.{
  Certificate, CertificateStatus, CertificateStatus-discrete, Revocation, RevokedCertificateEntry,
}

abbrev pub has_status : CertificateStatus → Certificate → Bool
has_status s c = is_yes (CertificateStatus-discrete c.status s)

-- One round of ensureCertificateFinalizationKeysAvailable: `existing` holds a key of `c`.
abbrev pub holds_key_of : Certificate → Certificate → Bool
holds_key_of c existing =
    not (existing.id == c.id)
    && ((not (c.enrollment_id == "") && existing.enrollment_id == c.enrollment_id)
        || (not (c.issuer_id == "")
            && not (c.serial_number == "")
            && existing.issuer_id == c.issuer_id
            && existing.serial_number == c.serial_number))

unfoldable pub ensure_certificate_finalization_keys_available :
    GoMap Certificate → Certificate → Result (Unit {0})
ensure_certificate_finalization_keys_available certificates c =
    reject_if (any (holds_key_of c) (values certificates)) Error.invalid_transition

-- The body of CreateCertificate.
unfoldable pub create_certificate : GoMap Certificate → Certificate → Result (GoMap Certificate)
unfolding ensure_certificate_finalization_keys_available
create_certificate certificates c = do
  ensure_certificate_finalization_keys_available certificates c
  ok (insert c.id c certificates)

-- The body of UpdateCertificate.
unfoldable pub update_certificate : GoMap Certificate → Certificate → Result (GoMap Certificate)
update_certificate certificates c = do
  _ ← or_fail (lookup c.id certificates) Error.certificate_not_found
  ok (insert c.id c certificates)

unfoldable pub update_certificate_if_status :
    GoMap Certificate → Certificate → CertificateStatus → Result (GoMap Certificate)
update_certificate_if_status certificates c current_status = do
  current ← or_fail (lookup c.id certificates) Error.certificate_not_found
  reject_if (not (has_status current_status current)) Error.invalid_transition
  ok (insert c.id c certificates)

unfoldable pub first_of_enrollment : String → List Certificate → Option Certificate
first_of_enrollment enrollment_id [] = none
first_of_enrollment enrollment_id (c ∷ cs) =
    if c.enrollment_id == enrollment_id then some c else first_of_enrollment enrollment_id cs

unfoldable pub certificate_by_enrollment_id : GoMap Certificate → String → Result Certificate
unfolding first_of_enrollment
certificate_by_enrollment_id certificates enrollment_id =
    or_fail (first_of_enrollment enrollment_id (values certificates)) Error.certificate_not_found

unfoldable pub certificate_needs_expiration_scan : Certificate → Time → Time → Bool
certificate_needs_expiration_scan c now warning_before =
    ((has_status CertificateStatus.valid c || has_status CertificateStatus.suspended c)
      && not (after c.not_after now))
    || (has_status CertificateStatus.valid c
        && after c.not_after now
        && not (after c.not_after warning_before)
        && is_zero_time c.renewal_notified_at)

abbrev pub expires_first : Certificate → Certificate → Bool
expires_first a b = earlier a.not_after a.id b.not_after b.id

-- `limit <= 0` returns nil, which is `take 0`.
unfoldable pub list_certificates_for_expiration_scan :
    GoMap Certificate → Time → Time → ℕ → List Certificate
list_certificates_for_expiration_scan certificates now warning_before limit = take limit (
    sort_slice expires_first
      (select (λ c. certificate_needs_expiration_scan c now warning_before) (values certificates)))

-- `if limit > 0 && len(result) > limit { return result[:limit] }`.
abbrev pub limited {ℓ} : {A : Type ℓ} → ℕ → List A → List A
limited limit xs = if ltb 0 limit then take limit xs else xs

abbrev pub expires_within : Time → Time → Certificate → Bool
expires_within now cutoff c =
    has_status CertificateStatus.valid c && after c.not_after now && not (after c.not_after cutoff)

unfoldable pub list_certificates_expiring_within :
    GoMap Certificate → Time → Time → ℕ → ℕ → List Certificate
list_certificates_expiring_within certificates now cutoff limit offset = limited limit (
    drop offset
      (sort_slice expires_first (select (expires_within now cutoff) (values certificates))))

unfoldable pub revoked_entries :
    GoMap Certificate → String → List Revocation → List RevokedCertificateEntry
revoked_entries certificates issuer_id [] = []
revoked_entries certificates issuer_id (r ∷ rs) =
    let rest = revoked_entries certificates issuer_id rs in
    elim (lookup r.certificate_id certificates) [
      | none ↦ rest
      | some c ↦
          if not (c.issuer_id == issuer_id) || not (has_status CertificateStatus.revoked c)
          then rest
          else record {
            certificate_id = c.id;
            serial_number = c.serial_number;
            revoked_at = r.revoked_at;
            reason = r.reason;
          }
            ∷ rest
    ]

unfoldable pub list_revocations_by_issuer :
    GoMap Certificate → GoMap Revocation → String → List RevokedCertificateEntry
unfolding revoked_entries
list_revocations_by_issuer certificates revocations issuer_id =
    revoked_entries certificates issuer_id (values revocations)
