-- ===== src/Lifecycle/Services/Acme/Ready.antt =====
-- service.go: an order is ready only behind the validation of all its authorizations.
use ano_pki_community.Common.{
  String, ◌≡◌, refl, arith, Bool, true, false, not, ◌&&◌, ◌==◌, any, All, All-weaken, values,
  All-values-insert, any-values-insert, any-select, any-sort_slice, earlier, select, GoMap, insert,
  Time,
}
use ano_pki_community.Domain.{
  AcmeOrder, AcmeOrderStatus, AcmeAuthorization, AcmeAuthorizationStatus,
  AcmeAuthorizationStatus-discrete, AcmeChallenge,
}
use ano_pki_community.Store.State.{MemoryStore}
use ano_pki_community.Store.Access.{list_acme_authorizations_by_order as listed}
use ano_pki_community.Store.Access.Transitions.{
  update_acme_order_if_status-Replaced, update_acme_authorization_if_status-Replaced,
}
use ano_pki_community.Store.Repository.{
  get_acme_order, get_acme_challenge, get_acme_authorization, update_acme_order_if_status,
  update_acme_authorization_if_status, update_acme_challenge_if_status,
  list_acme_authorizations_by_order, list_acme_challenges_by_authorization,
}
use ano_pki_community.Lifecycle.World.{World}
use ano_pki_community.Lifecycle.World.Ensures.{
  Ensures, Ensures-then, Ensures-found, Ensures-guard, Ensures-written, Ensures-put, Ensures-step,
  Ensures-return,
}
use ano_pki_community.Lifecycle.World.Leaves.{
  Leaves, Leaves-read, Leaves-guard, Leaves-then, Leaves-in_tx,
}
use ano_pki_community.Lifecycle.Services.{Service}
use ano_pki_community.Lifecycle.Services.Audited.{Ensures-Audited}
use ano_pki_community.Lifecycle.Services.Acme.{
  authorization_is, order_is, valid_authorization, ready_order, promote_acme_order_if_ready,
  promote_acme_authorization_if_ready,
}
use ano_pki_community.Lifecycle.Services.Acme.Steps.{Ensures-unless}
use ano_pki_community.Lifecycle.Services.Acme.Challenges.{complete_open, complete_acme_challenge}

abbrev is_unmet : AcmeOrder → AcmeAuthorization → Bool
is_unmet o a = a.order_id == o.id && not (authorization_is AcmeAuthorizationStatus.valid a)

-- A ready order that has an authorization which is not valid.
abbrev is_too_early : GoMap AcmeAuthorization → AcmeOrder → Bool
is_too_early authorizations o =
    order_is AcmeOrderStatus.ready o && any (is_unmet o) (values authorizations)

-- No order of the store is ready too early.
abbrev pub IsReadySound : MemoryStore → Type 0
IsReadySound s = All (λ o. is_too_early s.acme_authzs o ≡ false) (values s.acme_orders)

-- A valid authorization holds no order back.
write_valid :
    (a : AcmeAuthorization) (authorizations : GoMap AcmeAuthorization) (o : AcmeOrder)
    → authorization_is AcmeAuthorizationStatus.valid a ≡ true
    → is_too_early authorizations o ≡ false
    → is_too_early (insert a.id a authorizations) o ≡ false
write_valid a authorizations o v h =
    ground (arith, any-values-insert (is_unmet o) a.id a authorizations)

-- The loop of promoteACMEOrderIfReady has seen each authorization of the order.
listed_valid :
    (o : AcmeOrder) (now : Time) (authorizations : GoMap AcmeAuthorization)
    → any (λ a. not (authorization_is AcmeAuthorizationStatus.valid a)) (listed authorizations o.id)
      ≡ false
    → is_too_early authorizations (ready_order o now) ≡ false
unfolding listed
listed_valid o now authorizations h =
    let bad : AcmeAuthorization → Bool =
      λ a. not (authorization_is AcmeAuthorizationStatus.valid a) in
    let mine : AcmeAuthorization → Bool = λ a. a.order_id == o.id in
    let less : AcmeAuthorization → AcmeAuthorization → Bool =
      λ a b. earlier a.created_at a.id b.created_at b.id in
    ground (
      arith,
      any-sort_slice less bad (select mine (values authorizations)),
      any-select bad mine (values authorizations),
    )

abbrev pub Sound : {A : Type 0} → A → World → Type 0
Sound a w = IsReadySound w.store

promote_acme_order_if_ready-Sound :
    (o : AcmeOrder) (now : Time) (w : World)
    → IsReadySound w.store
    → Ensures Sound (promote_acme_order_if_ready o now w)
unfolding promote_acme_order_if_ready list_acme_authorizations_by_order update_acme_order_if_status
promote_acme_order_if_ready-Sound o now w s = Ensures-unless Sound _ _ w s λ is_pending.
    Ensures-step Sound _ _ _ (
      Ensures-unless Sound _ _ w s λ seen. Ensures-put Sound _ _ w λ m wrote.
        let (old, found, same, e) =
          update_acme_order_if_status-Replaced (ready_order o now) AcmeOrderStatus.pending _ m
            wrote in
        rw e (
          All-values-insert (λ x. is_too_early w.store.acme_authzs x ≡ false) o.id
            (ready_order o now) w.store.acme_orders (listed_valid o now w.store.acme_authzs seen)
            s))

promote_acme_authorization_if_ready-Sound :
    (a : AcmeAuthorization) (now : Time) (w : World)
    → IsReadySound w.store
    → Ensures Sound (promote_acme_authorization_if_ready a now w)
unfolding promote_acme_authorization_if_ready list_acme_challenges_by_authorization get_acme_order
    update_acme_authorization_if_status AcmeAuthorizationStatus-discrete
promote_acme_authorization_if_ready-Sound a now w s = Ensures-step Sound _ _ _ (
    Ensures-unless Sound _ _ w s λ seen. Ensures-written Sound _ _ _ w λ m wrote.
      let (old, found, same, e) =
        update_acme_authorization_if_status-Replaced (valid_authorization a now)
          AcmeAuthorizationStatus.pending _ m wrote in
      Ensures-found Sound _ _ _ _ λ o got. promote_acme_order_if_ready-Sound o now _ (
        rw e (
          All-weaken (λ x. is_too_early w.store.acme_authzs x ≡ false)
            (λ x.
              is_too_early (insert a.id (valid_authorization a now) w.store.acme_authzs) x ≡ false)
            (values w.store.acme_orders)
            (λ x. write_valid (valid_authorization a now) w.store.acme_authzs x refl) s)))

complete_open-Sound :
    (svc : Service) (actor : String) (now : Time) (old : AcmeChallenge) (w : World)
    → IsReadySound w.store
    → Ensures Sound (complete_open svc actor now old w)
unfolding get_acme_authorization update_acme_challenge_if_status
complete_open-Sound svc actor now old w s = Ensures-guard Sound _ _ _ w λ is_open.
    Ensures-found Sound _ _ _ _ λ a found. Ensures-guard Sound _ _ _ w λ is_pending.
      Ensures-written Sound _ _ _ w λ m wrote.
        Ensures-then Sound _ Sound _ (promote_acme_authorization_if_ready-Sound a now _ s)
          λ u v sound. Ensures-found Sound _ _ _ _ λ promoted got.
            Ensures-Audited Sound _ svc actor _ _ _ _ _ v
              λ v' (log, e). Ensures-return Sound _ v' (rw e sound)

-- Completing a challenge keeps that no order is ready before all its authorizations are valid, whether
-- the call succeeds or fails.
pub complete_acme_challenge-IsReadySound :
    (svc : Service) (actor id : String) (w : World)
    → IsReadySound w.store
    → Leaves IsReadySound (complete_acme_challenge svc actor id w)
unfolding complete_acme_challenge get_acme_challenge
complete_acme_challenge-IsReadySound svc actor id w s =
    Leaves-then IsReadySound _ _ (Leaves-guard IsReadySound _ _ w s) λ u v sv.
      Leaves-then IsReadySound _ _ (Leaves-read IsReadySound _ _ sv) λ now v' sv'.
        Leaves-in_tx IsReadySound _ v' sv'
          (Ensures-found Sound _ _ _ _ λ old found. complete_open-Sound svc actor now old v' sv')
