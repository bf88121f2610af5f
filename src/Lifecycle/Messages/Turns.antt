-- ===== src/Lifecycle/Messages/Turns.antt =====
-- outbox_dispatcher.go: a turn of the loop moves the stored message along the steps of its status,
-- whichever version of it the dispatcher holds.
use ano_pki_community.Common.{
  String, ◌≡◌, refl, arith, true, Bool-cases, inl, inr, not, is_yes, Option, none, some, GoMap,
  lookup, insert, leb, ◌+◌, Time, Result, ok, err, Error, conditional_ok, sym, ap,
}
use ano_pki_community.Domain.{
  OutboxMessage, OutboxMessageStatus, OutboxMessageStatus-discrete, JobAttempt,
}
use ano_pki_community.Store.State.{MemoryStore}
use ano_pki_community.Store.Outbox.{
  same_message, update_outbox_message_if_current as conditional_write,
}
use ano_pki_community.Store.Repository.{update_outbox_message_if_current, create_job_attempt}
use ano_pki_community.Lifecycle.World.{World, Environment, repo}
use ano_pki_community.Lifecycle.World.Ensures.{
  Ensures, Ensures-world, Ensures-return, Ensures-fail, Ensures-weaken, Ensures-then, Ensures-step,
  Ensures-written,
}
use ano_pki_community.Lifecycle.World.Leaves.{
  Leaves, Leaves-read, Leaves-then, Leaves-having, Leaves-written, Leaves-attempt, Leaves-in_tx,
}
use ano_pki_community.Lifecycle.Outbox.{
  OutboxDispatcher, is_lost, recovered, leased, replaced, replace, lease_recovered, claim_by_status,
  claim, finished, finish, settle, effective_outbox_max_attempts, process, run_message,
}
use ano_pki_community.Lifecycle.Outbox.Statuses.{
  Trigger, OutboxReach, Moves, Moves-insert, here, next, claimed, released, delivered, given_up,
}

-- What is known of the message, if one comes back.
abbrev OnSome : (OutboxMessage → Type 0) → Option OutboxMessage → Type 0
OnSome P none = Unit {0}
OnSome P (some m) = P m

is_yes_true : {P : Type 0} (d : Dec P) → is_yes d ≡ true → P
is_yes_true (yes p) h = p
is_yes_true (no n) h = cc

same_status :
    (stored current : OutboxMessage)
    → same_message stored current ≡ true
    → stored.status ≡ current.status
same_status stored current h =
    is_yes_true (OutboxMessageStatus-discrete stored.status current.status) (ground arith)

-- A conditional write of `new` over the version `current`.
Moves-written :
    (s t t' : GoMap OutboxMessage) (new current : OutboxMessage)
    → OutboxReach Trigger.dispatching current.status new.status
    → conditional_write t new current ≡ ok t'
    → Moves Trigger.dispatching s t
    → Moves Trigger.dispatching s t'
unfolding conditional_write
Moves-written s t t' new current reach h moves =
    let (stored, found, same, e) =
      conditional_ok (lookup new.id t) Error.outbox_message_not_found
        (λ stored. not (same_message stored current)) Error.invalid_transition (insert new.id new t)
        t' h in
    rw (sym e) (
      Moves-insert Trigger.dispatching s t stored new found
        (rw (same_status stored current (ground arith)) reach) moves)

new_held :
    (now : Time) (m : OutboxMessage) (o : Option OutboxMessage)
    → OnSome (λ x. x ≡ leased m now) o
    → OnSome (λ x. x.status ≡ OutboxMessageStatus.processing) o
new_held now m none h = tt
new_held now m (some x) h = ap (λ y. y.status) h

-- A replaced message is the new version.
replaced-new :
    (new : OutboxMessage) (r : Result (Unit {0})) (w : World)
    → Ensures (λ o v. OnSome (λ m. m ≡ new) o) (replaced new r w)
replaced-new new (ok u) w = Ensures-return _ _ w refl
replaced-new new (err x) w = elim (Bool-cases (is_lost x)) [
  | inl e ↦ rw e (Ensures-return _ _ w tt)
  | inr e ↦ rw e (Ensures-fail _ _ w)
]

replace-new :
    (new current : OutboxMessage) (w : World)
    → Ensures (λ o v. OnSome (λ m. m ≡ new) o) (replace new current w)
replace-new new current w =
    Ensures-then _ _ (λ r v. Unit {0}) _ (Ensures-world _ _ λ r. tt) λ r v u. replaced-new new r v

abbrev Held : Option OutboxMessage → World → Type 0
Held o w = OnSome (λ m. m.status ≡ OutboxMessageStatus.processing) o

replace-Held :
    (now : Time) (m : OutboxMessage) (w : World) → Ensures Held (replace (leased m now) m w)
replace-Held now m w =
    Ensures-weaken _ _ _ (λ o v. new_held now m o) (replace-new (leased m now) m w)

lease_recovered-Held :
    (now : Time) (o : Option OutboxMessage) (w : World) → Ensures Held (lease_recovered now o w)
lease_recovered-Held now none w = Ensures-return _ _ w tt
lease_recovered-Held now (some m) w = replace-Held now m w

claim-Held :
    (env : Environment) (m : OutboxMessage) (status : OutboxMessageStatus) (w : World)
    → Ensures Held (claim_by_status env status m w)
claim-Held env m OutboxMessageStatus.pending w = Ensures-step _ _ _ _ (replace-Held _ m _)
claim-Held env m OutboxMessageStatus.processing w = Ensures-step _ _ _ _ (
    Ensures-then _ _ (λ r v. Unit {0}) _ (Ensures-world _ _ λ r. tt)
      λ o v u. lease_recovered-Held _ o v)
claim-Held env m OutboxMessageStatus.completed w = Ensures-return _ _ w tt
claim-Held env m OutboxMessageStatus.failed w = Ensures-return _ _ w tt
claim-Held env m OutboxMessageStatus.dead_letter w = Ensures-return _ _ w tt

module _ (s : GoMap OutboxMessage) where
  abbrev pub Moved : MemoryStore → Type 0
  Moved t = Moves Trigger.dispatching s t.outbox

  replaced-Moved :
      (new : OutboxMessage) (r : Result (Unit {0})) (w : World)
      → Moved w.store
      → Leaves Moved (replaced new r w)
  replaced-Moved new (ok u) w h = Leaves-read Moved _ w h
  replaced-Moved new (err x) w h = elim (Bool-cases (is_lost x)) [
    | inl e ↦ rw e (Leaves-read Moved _ w h)
    | inr e ↦ rw e (Leaves-read Moved _ w h)
  ]

  replace-Moved :
      (new current : OutboxMessage) (w : World)
      → OutboxReach Trigger.dispatching current.status new.status
      → Moved w.store
      → Leaves Moved (replace new current w)
  unfolding update_outbox_message_if_current
  replace-Moved new current w reach h =
      Leaves-then Moved _ _
        (Leaves-attempt Moved (repo (update_outbox_message_if_current new current)) w (
          Leaves-written Moved (λ t. record w.store { outbox = t })
            (conditional_write w.store.outbox new current) w h
            λ m wrote. Moves-written s w.store.outbox m new current reach wrote h))
        λ r v moved. replaced-Moved new r v moved

  lease_recovered-Moved :
      (now : Time) (m : OutboxMessage) (o : Option OutboxMessage) (w : World)
      → Moved w.store
      → OnSome (λ x. x ≡ recovered m now) o
      → Leaves Moved (lease_recovered now o w)
  lease_recovered-Moved now m none w h e = Leaves-read Moved _ w h
  lease_recovered-Moved now m (some x) w h e =
      replace-Moved (leased x now) x w (rw e (next here claimed)) h

  claim-Moved :
      (env : Environment) (m : OutboxMessage) (status : OutboxMessageStatus) (w : World)
      → m.status ≡ status
      → Moved w.store
      → Leaves Moved (claim_by_status env status m w)
  claim-Moved env m OutboxMessageStatus.pending w e h =
      Leaves-then Moved _ _ (Leaves-read Moved _ _ h)
        λ now v moved. replace-Moved (leased m now) m v (rw e (next here claimed)) moved
  claim-Moved env m OutboxMessageStatus.processing w e h =
      Leaves-then Moved _ _ (Leaves-read Moved _ _ h) λ now v moved.
        Leaves-having Moved _ _ _
          (replace-Moved (recovered m now) m v (rw e (next here released)) moved)
          (replace-new (recovered m now) m v)
          λ again v' moved' is. lease_recovered-Moved now m again v' moved' is
  claim-Moved env m OutboxMessageStatus.completed w e h = Leaves-read Moved _ w h
  claim-Moved env m OutboxMessageStatus.failed w e h = Leaves-read Moved _ w h
  claim-Moved env m OutboxMessageStatus.dead_letter w e h = Leaves-read Moved _ w h

  finish-Moved :
      (m : OutboxMessage) (status : OutboxMessageStatus) (j : JobAttempt) (w : World)
      → OutboxReach Trigger.dispatching m.status status
      → Moved w.store
      → Leaves Moved (finish m status j w)
  unfolding finish update_outbox_message_if_current create_job_attempt
  finish-Moved m status j w reach h =
      let new = finished m status j.finished_at in
      Leaves-in_tx Moved _ w h (
        Ensures-written (λ u v. Moved v.store) _ _ _ w
          λ t wrote. Ensures-return _ _ _ (Moves-written s w.store.outbox t new m reach wrote h))

-- What settling decides is a step from a claimed message.
settle-step :
    (d : OutboxDispatcher) (c : OutboxMessage) (failure : Option String) (at : Time)
    → c.status ≡ OutboxMessageStatus.processing
    → let (m, status) = settle d c failure at in OutboxReach Trigger.dispatching m.status status
unfolding settle
settle-step d c none at e = rw e (next here delivered)
settle-step d c (some text) at e =
    elim (Bool-cases (leb (effective_outbox_max_attempts c) (c.attempt_count + 1))) [
      | inl p ↦ rw (p, e) (next here given_up)
      | inr p ↦ rw (p, e) (next here released)
    ]

module _ (s : GoMap OutboxMessage) (d : OutboxDispatcher)
    (keeps : (m : OutboxMessage) (w : World)
      → (d.handle_outbox_message m w).1.store.outbox ≡ w.store.outbox) where
  process-Moved :
      (o : Option OutboxMessage) (w : World)
      → Moved s w.store
      → Held o w
      → Leaves (Moved s) (process d o w)
  process-Moved none w h e = Leaves-read (Moved s) _ w h
  process-Moved (some c) w h e =
      let P = Moved s in
      Leaves-then P _ _ (Leaves-read P _ _ h) λ started v1 h1.
        Leaves-then P _ _ (Leaves-read P _ _ (rw (keeps c v1) h1)) λ failure v2 h2.
          Leaves-then P _ _ (Leaves-read P _ _ h2) λ at v3 h3.
            Leaves-then P _ _ (Leaves-read P _ _ h3) λ id v4 h4.
              Leaves-then P _ _
                (finish-Moved s (settle d c failure at).0 (settle d c failure at).1 _ v4
                  (settle-step d c failure at e) h4)
                λ u v5 h5. Leaves-read P _ v5 h5

  -- A turn over any version of a message.
  pub run_message-Moved :
      (m : OutboxMessage) (w : World) → Moved s w.store → Leaves (Moved s) (run_message d m w)
  unfolding run_message claim
  run_message-Moved m w h =
      Leaves-having (Moved s) _ _ _ (claim-Moved s d.environment m m.status w refl h)
        (claim-Held d.environment m m.status w) λ o v moved held. process-Moved o v moved held
