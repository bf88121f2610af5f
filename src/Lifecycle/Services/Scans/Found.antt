-- ===== src/Lifecycle/Services/Scans/Found.antt =====
-- service.go: what ScanCertificateExpirations returns.
use ano_pki_community.Common.{
  String, ◌≡◌, refl, arith, true, false, Bool, Bool-cases, inl, inr, List, [], ◌∷◌, ◌++◌, All, ◌+◌,
  Time, Duration, after, ok,
}
use ano_pki_community.Domain.{Certificate, CertificateStatus}
use ano_pki_community.Store.Certificates.{has_status}
use ano_pki_community.Store.Repository.{list_certificates_for_expiration_scan}
use ano_pki_community.Lifecycle.World.{World}
use ano_pki_community.Lifecycle.World.Ensures.{
  Ensures, Ensures-ok, Ensures-in_tx, Ensures-then, Ensures-guard, Ensures-step, Ensures-return,
  Ensures-world,
}
use ano_pki_community.Lifecycle.Services.{Service}
use ano_pki_community.Lifecycle.Services.Scans.{
  ScanCertificateExpirationsRequest, CertificateExpirationScanResult,
  certificate_is_expired_candidate, certificate_needs_renewal_warning, expired_certificate,
  warned_certificate, add_expired, add_warning, scan_loop, scan_certificate_expirations,
}

abbrev pub IsExpired : Time → Certificate → Type 0
IsExpired now c = (c.status ≡ CertificateStatus.expired) × (after c.not_after now ≡ false)

abbrev pub IsWarned : Duration → Time → Certificate → Type 0
IsWarned window now c =
    (has_status CertificateStatus.valid c ≡ true)
    × (c.renewal_notified_at ≡ now)
    × (after c.not_after now ≡ true)
    × (after c.not_after (now + window) ≡ false)

abbrev pub Found : Duration → Time → CertificateExpirationScanResult → Type 0
Found window now result =
    All (IsExpired now) result.expired × All (IsWarned window now) result.expiration_warnings

All-append :
    (P : Certificate → Type 0) (xs : List Certificate) (y : Certificate)
    → All P xs
    → P y
    → All P (xs ++ y ∷ [])
All-append P [] y h p = (p, tt)
All-append P (x ∷ xs) y h p = (h.0, All-append P xs y h.1 p)

module _ (window : Duration) (now : Time) where
  add_expired-Found :
      (done : Bool) (c : Certificate) (result : CertificateExpirationScanResult)
      → Found window now result
      → certificate_is_expired_candidate c now ≡ true
      → Found window now (add_expired done (expired_certificate c now) result)
  unfolding certificate_is_expired_candidate
  add_expired-Found false c result f h = f
  add_expired-Found true c result f h =
      (All-append (IsExpired now) result.expired _ f.0 (refl, ground arith), f.1)

  add_warning-Found :
      (done : Bool) (c : Certificate) (result : CertificateExpirationScanResult)
      → Found window now result
      → certificate_needs_renewal_warning c now (now + window) ≡ true
      → Found window now (add_warning done (warned_certificate c now) result)
  unfolding certificate_needs_renewal_warning
  add_warning-Found false c result f h = f
  add_warning-Found true c result f h = (
    f.0,
    All-append (IsWarned window now) result.expiration_warnings _ f.1
        (ground arith, refl, ground arith, ground arith),
  )

  scan_loop-Found :
      (svc : Service) (seconds : Duration → String) (actor : String) (cs : List Certificate)
      (result : CertificateExpirationScanResult) (w : World)
      → Found window now result
      → Ensures (λ r v. Found window now r) (scan_loop svc seconds actor window now cs result w)
  unfolding scan_loop
  scan_loop-Found svc seconds actor [] result w f = Ensures-return _ result w f
  scan_loop-Found svc seconds actor (c ∷ cs) result w f =
      let Q : CertificateExpirationScanResult → World → Type 0 = λ r v. Found window now r in
      elim (Bool-cases (certificate_is_expired_candidate c now)) [
        | inl over ↦ rw over (
            Ensures-then Q _ (λ done v. Unit {0}) _ (Ensures-world _ _ λ done. tt)
              λ done v u.
                scan_loop-Found svc seconds actor cs _ v (add_expired-Found done c result f over))
        | inr not_over ↦
            rw not_over
              (elim (Bool-cases (certificate_needs_renewal_warning c now (now + window))) [
                | inl soon ↦ rw soon (
                    Ensures-then Q _ (λ done v. Unit {0}) _ (Ensures-world _ _ λ done. tt)
                      λ done v u.
                        scan_loop-Found svc seconds actor cs _ v
                          (add_warning-Found done c result f soon))
                | inr later ↦ rw later (scan_loop-Found svc seconds actor cs result w f)
              ])
      ]

-- What a scan reports as expired has that status and its time is over; what it reports as warned about is
-- valid, marked as notified now, and ends after now and within the window.
scan_certificate_expirations-Found :
    (svc : Service) (seconds : Duration → String) (actor : String)
    (req : ScanCertificateExpirationsRequest) (result : CertificateExpirationScanResult)
    (w w' : World)
    → scan_certificate_expirations svc seconds actor req w ≡ (ok result, w')
    → Found req.warning_window (svc.environment.reading w.readings) result
unfolding scan_certificate_expirations list_certificates_for_expiration_scan
scan_certificate_expirations-Found svc seconds actor req result w w' h =
    let now = svc.environment.reading w.readings in
    let Q : CertificateExpirationScanResult → World → Type 0 =
      λ r v. Found req.warning_window now r in
    Ensures-ok Q _ result w'
      (Ensures-guard Q _ _ _ w λ given. Ensures-step Q _ _ _ (
        Ensures-in_tx Q _ _ (
          Ensures-step Q _ _ _
            (scan_loop-Found req.warning_window now svc seconds actor _ _ _ (tt, tt)))))
      h
