-- ===== src/Lifecycle/Services/Certificates/Final.antt =====
-- service.go: a revoked certificate stays revoked.
use ano_pki_community.Common.{String, ◌≡◌, refl, Bool, true, false, some, lookup, err, Error}
use ano_pki_community.Domain.{
  Certificate, CertificateStatus, CertificateStatus-discrete, RevocationReason,
}
use ano_pki_community.Store.State.{within_tx, written}
use ano_pki_community.Store.Repository.{get_certificate}
use ano_pki_community.Lifecycle.World.{World, Op, in_tx, bound, guard}
use ano_pki_community.Lifecycle.Services.{Service, is_blank}
use ano_pki_community.Lifecycle.Services.Certificates.{
  can_revoke_certificate_status, revoke_certificate, transition_certificate_status,
  suspend_certificate, resume_certificate,
}

-- The operation fails with ErrInvalidTransition and leaves the store as it is.
abbrev pub IsRefused : {A : Type 0} → Op A → World → Type 0
IsRefused op w = ((op w).0 ≡ err Error.invalid_transition) × ((op w).1.store ≡ w.store)

-- A certificate that is stored as revoked is revoked for good: revoking it again, by force or not,
-- suspending it and resuming it are all refused, and nothing is written.
pub revoked_is_final :
    (svc : Service) (actor id : String) (reason : RevocationReason) (force : Bool) (w : World)
    (c : Certificate)
    → is_blank svc id ≡ false
    → lookup id w.store.certificates ≡ some c
    → c.status ≡ CertificateStatus.revoked
    → IsRefused (revoke_certificate svc actor id reason force) w
      × IsRefused (suspend_certificate svc actor id) w
      × IsRefused (resume_certificate svc actor id) w
unfolding bound guard written revoke_certificate suspend_certificate resume_certificate
    transition_certificate_status get_certificate in_tx within_tx can_revoke_certificate_status
    CertificateStatus-discrete
revoked_is_final svc actor id reason true w c b k s =
    rw (b, k, s) ((refl, refl), (refl, refl), (refl, refl))
revoked_is_final svc actor id reason false w c b k s =
    rw (b, k, s) ((refl, refl), (refl, refl), (refl, refl))
