-- ===== src/Lifecycle/Services/Issuance/Leases.antt =====
-- service.go, claimIssuanceAttempt: who signs for an enrollment.
use ano_pki_community.Common.{
  ◌*◌, minute, String, ◌≡◌, refl, inl, inr, Bool, true, false, some, Option-cases, Bool-cases, ◌+◌,
  ◌<◌, ltb_iff, arith, after, Time, lookup, insert, lookup-insert_self, lookup-id, IsKeyed, subst,
  Result, ok, err, Error, is_yes,
}
use ano_pki_community.Domain.{
  IssuanceAttempt, IssuanceAttemptStatus, IssuanceAttemptStatus-discrete,
}
use ano_pki_community.Store.Issuance.{
  same_attempt, create_issuance_attempt as create_attempt, get_issuance_attempt as get_attempt,
  update_issuance_attempt_if_current as update_attempt,
}
use ano_pki_community.Store.State.{within_tx, written}
use ano_pki_community.Store.Repository.{
  create_issuance_attempt, get_issuance_attempt, update_issuance_attempt_if_current,
}
use ano_pki_community.Lifecycle.World.{World, in_tx, bound, guard}
use ano_pki_community.Lifecycle.Services.Issuance.{
  claim_issuance_attempt, claim_by_status, take_over, default_issuance_signing_lease, new_attempt,
  signing_again,
}

abbrev pub attempt_key : IssuanceAttempt → String
attempt_key a = a.enrollment_id

-- While an attempt is being signed for and its lease runs, every other claim on the enrollment is
-- refused, and the store stays as it is.
pub claim_issuance_attempt_refused :
    (enrollment_id : String) (now : Time) (w : World) (a : IssuanceAttempt)
    → lookup enrollment_id w.store.issuance_attempts ≡ some a
    → a.status ≡ IssuanceAttemptStatus.signing
    → now < a.lease_expires_at
    → claim_issuance_attempt enrollment_id now w ≡ (err Error.invalid_transition, w)
unfolding bound guard written claim_issuance_attempt in_tx within_tx get_issuance_attempt
    get_attempt
claim_issuance_attempt_refused enrollment_id now w a k s l =
    rw (k, s, (ltb_iff now a.lease_expires_at).1 l) refl

-- What a claim that is told to sign holds: the stored attempt, with a lease of five minutes.
abbrev Signs : String → Time → Result (IssuanceAttempt × Bool) × World → Type 0
Signs enrollment_id now (ok (a, true), w') =
    (a.status ≡ IssuanceAttemptStatus.signing)
    × (a.lease_expires_at ≡ now + default_issuance_signing_lease)
    × (lookup enrollment_id w'.store.issuance_attempts ≡ some a)
Signs enrollment_id now (ok (a, false), w') = Unit {0}
Signs enrollment_id now (err e, w') = Unit {0}

is_yes_refl : (x y : IssuanceAttemptStatus) (d : Dec (x ≡ y)) → x ≡ y → is_yes d ≡ true
is_yes_refl x y (yes p) q = refl
is_yes_refl x y (no n) q = absurd (n q)

same_attempt_refl : (a : IssuanceAttempt) → same_attempt a a ≡ true
same_attempt_refl a =
    rw (is_yes_refl a.status a.status (IssuanceAttemptStatus-discrete a.status a.status) refl)
      (ground arith)

take_over-Signs :
    (enrollment_id : String) (now : Time) (w : World) (a : IssuanceAttempt)
    → enrollment_id ≡ a.enrollment_id
    → lookup enrollment_id w.store.issuance_attempts ≡ some a
    → Signs enrollment_id now (in_tx (take_over a now) w)
unfolding bound guard written in_tx within_tx update_issuance_attempt_if_current update_attempt
take_over-Signs enrollment_id now w a own k =
    let attempts = w.store.issuance_attempts in
    rw (subst (λ j. lookup j attempts ≡ some a) own k, same_attempt_refl a)
      (
        refl,
        refl,
        subst
            (λ j.
              lookup enrollment_id (insert j (signing_again a now) attempts)
              ≡ some (signing_again a now))
            own (lookup-insert_self enrollment_id (signing_again a now) attempts),
      )

claim_by_status-Signs :
    (status : IssuanceAttemptStatus) (enrollment_id : String) (now : Time) (w : World)
    (a : IssuanceAttempt)
    → enrollment_id ≡ a.enrollment_id
    → lookup enrollment_id w.store.issuance_attempts ≡ some a
    → Signs enrollment_id now (in_tx (claim_by_status status a now) w)
unfolding bound guard written in_tx within_tx
claim_by_status-Signs IssuanceAttemptStatus.signed enrollment_id now w a own k = tt
claim_by_status-Signs IssuanceAttemptStatus.finalized enrollment_id now w a own k = tt
claim_by_status-Signs IssuanceAttemptStatus.failed enrollment_id now w a own k =
    take_over-Signs enrollment_id now w a own k
claim_by_status-Signs IssuanceAttemptStatus.signing enrollment_id now w a own k =
    elim (Bool-cases (after a.lease_expires_at now)) [
      | inl running ↦ rw running tt
      | inr over ↦ rw over (take_over-Signs enrollment_id now w a own k)
    ]

claim_issuance_attempt-Signs :
    (enrollment_id : String) (now : Time) (w : World)
    → IsKeyed attempt_key w.store.issuance_attempts
    → Signs enrollment_id now (claim_issuance_attempt enrollment_id now w)
unfolding bound guard written claim_issuance_attempt in_tx within_tx get_issuance_attempt
    get_attempt create_issuance_attempt create_attempt
claim_issuance_attempt-Signs enrollment_id now w keyed =
    elim (Option-cases (lookup enrollment_id w.store.issuance_attempts)) [
      | inl e ↦
          rw (e, e)
            (
              refl,
              refl,
              lookup-insert_self enrollment_id (new_attempt enrollment_id now)
                  w.store.issuance_attempts,
            )
      | inr (a, e) ↦ rw e (
          claim_by_status-Signs a.status enrollment_id now w a
            (lookup-id attempt_key enrollment_id a w.store.issuance_attempts keyed e) e)
    ]

-- A claim that is told to sign is the only one for five minutes: the attempt that it returns is
-- stored as being signed for, and until then every further claim on the enrollment is refused and
-- changes nothing. The map of attempts has each attempt under its enrollment's id.
pub claim_issuance_attempt_exclusive :
    (enrollment_id : String) (now : Time) (w w' : World) (a : IssuanceAttempt)
    → IsKeyed attempt_key w.store.issuance_attempts
    → claim_issuance_attempt enrollment_id now w ≡ (ok (a, true), w')
    → (lookup enrollment_id w'.store.issuance_attempts ≡ some a)
      × (a.status ≡ IssuanceAttemptStatus.signing)
      × ((later : Time)
          → later < now + 5 * minute
          → claim_issuance_attempt enrollment_id later w' ≡ (err Error.invalid_transition, w'))
claim_issuance_attempt_exclusive enrollment_id now w w' a keyed h =
    let (status, lease, stored) =
      subst (Signs enrollment_id now) h (claim_issuance_attempt-Signs enrollment_id now w keyed) in
    (
      stored,
      status,
      λ later l.
          claim_issuance_attempt_refused enrollment_id later w' a stored status
            (omega (arith, lease, l)),
    )
