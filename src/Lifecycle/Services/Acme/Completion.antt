-- ===== src/Lifecycle/Services/Acme/Completion.antt =====
-- service.go: what CompleteACMEChallenge makes of a challenge.
use ano_pki_community.Common.{
  true_of_not, is_yes_true, Bool-cases, ◌⊎◌, inl, inr, arith, String, ◌≡◌, refl, true, some, lookup,
  lookup-insert_self, Time, ok, GoMap,
}
use ano_pki_community.Domain.{
  AcmeOrder, AcmeAuthorization, AcmeAuthorizationStatus, AcmeChallenge, AcmeChallengeStatus,
  AcmeChallengeStatus-discrete,
}
use ano_pki_community.Store.Access as Access
use ano_pki_community.Store.Access.Transitions.{update_acme_challenge_if_status-Replaced}
use ano_pki_community.Store.Repository.{
  get_acme_order, get_acme_challenge, get_acme_authorization, update_acme_order_if_status,
  update_acme_authorization_if_status, update_acme_challenge_if_status,
  list_acme_authorizations_by_order, list_acme_challenges_by_authorization,
}
use ano_pki_community.Lifecycle.World.{World}
use ano_pki_community.Lifecycle.World.Ensures.{
  Ensures, Ensures-ok, Ensures-in_tx, Ensures-then, Ensures-found, Ensures-known, Ensures-guard,
  Ensures-written, Ensures-put, Ensures-step, Ensures-return,
}
use ano_pki_community.Lifecycle.Services.{Service}
use ano_pki_community.Lifecycle.Services.Audited.{Ensures-Audited}
use ano_pki_community.Lifecycle.Services.Acme.{
  challenge_is, is_open, promote_acme_order_if_ready, promote_acme_authorization_if_ready,
}
use ano_pki_community.Lifecycle.Services.Acme.Steps.{Ensures-unless}
use ano_pki_community.Lifecycle.Services.Acme.Challenges.{complete_open, complete_acme_challenge}

-- Promoting writes no challenge.
abbrev Kept : World → Unit {0} → World → Type 0
Kept w u w' = w'.store.acme_challenges ≡ w.store.acme_challenges

promote_acme_order_if_ready-Kept :
    (order : AcmeOrder) (now : Time) (v w : World)
    → Kept v tt w
    → Ensures (Kept v) (promote_acme_order_if_ready order now w)
unfolding promote_acme_order_if_ready list_acme_authorizations_by_order update_acme_order_if_status
promote_acme_order_if_ready-Kept order now v w k = Ensures-unless (Kept v) _ _ w k λ e.
    Ensures-step (Kept v) _ _ _
      (Ensures-unless (Kept v) _ _ w k λ f. Ensures-put (Kept v) _ _ w λ m g. k)

promote_acme_authorization_if_ready-Kept :
    (a : AcmeAuthorization) (now : Time) (w : World)
    → Ensures (Kept w) (promote_acme_authorization_if_ready a now w)
unfolding promote_acme_authorization_if_ready list_acme_challenges_by_authorization get_acme_order
    update_acme_authorization_if_status
promote_acme_authorization_if_ready-Kept a now w = Ensures-step (Kept w) _ _ _ (
    Ensures-unless (Kept w) _ _ w refl λ e.
      Ensures-written (Kept w) _ _ _ w λ m g.
        Ensures-found (Kept w) _ _ _ _ λ o f. promote_acme_order_if_ready-Kept o now w _ refl)

-- What completing makes of the challenge `old`, where `w` is the world before.
abbrev pub Completed : AcmeChallenge → Time → World → AcmeChallenge → World → Type 0
Completed old now w c w' =
    ((old.status ≡ AcmeChallengeStatus.pending) ⊎ (old.status ≡ AcmeChallengeStatus.processing))
    × ((a : AcmeAuthorization) × (lookup old.authorization_id w.store.acme_authzs ≡ some a)
        × (a.status ≡ AcmeAuthorizationStatus.pending))
    × (c ≡ record old { status = AcmeChallengeStatus.valid; validated_at = now; updated_at = now })
    × (lookup old.id w'.store.acme_challenges ≡ some c)

open_statuses :
    (c : AcmeChallenge)
    → is_open c ≡ true
    → (c.status ≡ AcmeChallengeStatus.pending) ⊎ (c.status ≡ AcmeChallengeStatus.processing)
open_statuses c h = elim (Bool-cases (challenge_is AcmeChallengeStatus.pending c)) [
  | inl e ↦ inl (is_yes_true _ e)
  | inr e ↦ inr (
      is_yes_true (AcmeChallengeStatus-discrete c.status AcmeChallengeStatus.processing)
        (ground arith))
]

update_challenge-stored :
    (c : AcmeChallenge) (status : AcmeChallengeStatus) (m m' : GoMap AcmeChallenge)
    → Access.update_acme_challenge_if_status m c status ≡ ok m'
    → lookup c.id m' ≡ some c
update_challenge-stored c status m m' h =
    let (old, found, same, e) = update_acme_challenge_if_status-Replaced c status m m' h in
    rw e (lookup-insert_self c.id c m)

complete_open-Completed :
    (svc : Service) (actor : String) (now : Time) (old : AcmeChallenge) (w : World)
    → Ensures (Completed old now w) (complete_open svc actor now old w)
unfolding get_acme_authorization update_acme_challenge_if_status
complete_open-Completed svc actor now old w =
    let Q = Completed old now w in
    Ensures-guard Q _ _ _ w λ is_open. Ensures-found Q _ _ _ _ λ a found.
      Ensures-guard Q _ _ _ w λ is_pending. Ensures-written Q _ _ _ w λ m wrote.
        Ensures-then Q _ _ _ (promote_acme_authorization_if_ready-Kept a now _) λ u v kept.
          Ensures-found Q _ _ _ _ λ promoted got.
            Ensures-Audited Q _ svc actor _ _ _ _ _ v λ v' (log, e). Ensures-return Q _ v' (
              open_statuses old (true_of_not _ is_open),
              (a, found, is_yes_true _ (true_of_not _ is_pending)),
              refl,
              rw (e, kept) (update_challenge-stored _ _ _ m wrote),
            )

-- A call that completes the challenge `old`, stored under its id, says that `old` was pending or
-- processing and that its authorization was pending. What it returns is `old` with the status valid
-- and the time of the clock as the times of its validation and update, and nothing else changed; that is
-- what is stored.
pub complete_acme_challenge_lem :
    (svc : Service) (actor id : String) (w w' : World) (old c : AcmeChallenge)
    → lookup id w.store.acme_challenges ≡ some old
    → complete_acme_challenge svc actor id w ≡ (ok c, w')
    → Completed old (svc.environment.reading w.readings) w c w'
unfolding complete_acme_challenge get_acme_challenge
complete_acme_challenge_lem svc actor id w w' old c found h =
    let Q = Completed old (svc.environment.reading w.readings) w in
    Ensures-ok Q _ c w'
      (Ensures-guard Q _ _ _ w λ b. Ensures-step Q _ _ _ (
        Ensures-in_tx Q _ _
          (Ensures-known Q _ _ old _ _ found (complete_open-Completed svc actor _ old _))))
      h
