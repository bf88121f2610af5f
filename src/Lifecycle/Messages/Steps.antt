-- ===== src/Lifecycle/Messages/Steps.antt =====
-- outbox_dispatcher.go and lifecycle/service.go: every message follows the steps of its status through
-- any sequence of dispatcher turns and replays.
use ano_pki_community.Common.{
  true_of_not, is_yes_true, String, ◌≡◌, refl, sym, arith, true, Bool-cases, inl, inr, not, ◌||◌,
  is_yes, List, [], ◌∷◌, some, GoMap, lookup, insert, leb, length, Time, ok, Error, conditional_ok,
}
use ano_pki_community.Domain.{OutboxMessage, OutboxMessageStatus, OutboxMessageStatus-discrete}
use ano_pki_community.Store.Outbox.{
  message_has, update_outbox_message_status_if_status as conditional_write,
}
use ano_pki_community.Store.Repository.{
  get_outbox_message, list_outbox_messages, update_outbox_message_status_if_status,
}
use ano_pki_community.Store.State.{MemoryStore}
use ano_pki_community.Lifecycle.World.{World}
use ano_pki_community.Lifecycle.World.Ensures.{
  Ensures, Ensures-return, Ensures-then, Ensures-step, Ensures-written,
}
use ano_pki_community.Lifecycle.World.Leaves.{
  Leaves, Leaves-read, Leaves-guard, Leaves-past, Leaves-then, Leaves-in_tx,
}
use ano_pki_community.Lifecycle.Outbox.{OutboxDispatcher}
use ano_pki_community.Lifecycle.Outbox.Statuses.{
  Trigger, OutboxReach, Moves, Moves-refl, Moves-insert, here, next, replayed, retried,
  retried_dead,
}
use ano_pki_community.Lifecycle.Services.{Service}
use ano_pki_community.Lifecycle.Services.Audited.{Ensures-Audited}
use ano_pki_community.Lifecycle.Services.Replays.{
  ReplayDeadLetterOutboxRequest, ReplayTexts, outbox_message_for_replay, can_retry, is_outside,
  replay_loop, retry_found, retry_outbox_message, replay_dead_letter_outbox_messages,
}
use ano_pki_community.Lifecycle.Messages.{OutboxCall, after_call, after_calls}
use ano_pki_community.Lifecycle.Messages.Turns.{run_message-Moved}

reach_pending :
    (s : OutboxMessageStatus)
    → (is_yes (OutboxMessageStatus-discrete s OutboxMessageStatus.dead_letter)
        || is_yes (OutboxMessageStatus-discrete s OutboxMessageStatus.failed))
      ≡ true
    → OutboxReach Trigger.retrying s OutboxMessageStatus.pending
unfolding OutboxMessageStatus-discrete
reach_pending OutboxMessageStatus.pending h = cc
reach_pending OutboxMessageStatus.processing h = cc
reach_pending OutboxMessageStatus.completed h = cc
reach_pending OutboxMessageStatus.failed h = next here retried
reach_pending OutboxMessageStatus.dead_letter h = next here retried_dead

Moves-written :
    (k : Trigger) (s t t' : GoMap OutboxMessage) (new : OutboxMessage)
    (status : OutboxMessageStatus)
    → OutboxReach k status new.status
    → conditional_write t new status ≡ ok t'
    → Moves k s t
    → Moves k s t'
unfolding conditional_write
Moves-written k s t t' new status reach h moves =
    let (stored, found, same, e) =
      conditional_ok (lookup new.id t) Error.outbox_message_not_found
        (λ stored. not (message_has status stored)) Error.invalid_transition (insert new.id new t)
        t' h in
    rw (sym e) (
      Moves-insert k s t stored new found
        (rw (is_yes_true (OutboxMessageStatus-discrete stored.status status) (ground arith)) reach)
        moves)

-- Every message has moved along the steps of a trigger.
abbrev MovedBy : Trigger → GoMap OutboxMessage → MemoryStore → Type 0
MovedBy k s t = Moves k s t.outbox

module _ (s : GoMap OutboxMessage) (svc : Service) where
  retry_found-Moved :
      (actor : String) (now : Time) (m : OutboxMessage) (w : World)
      → MovedBy Trigger.retrying s w.store
      → Leaves (MovedBy Trigger.retrying s) (retry_found svc actor now m w)
  unfolding update_outbox_message_status_if_status
  retry_found-Moved actor now m w h =
      let P = MovedBy Trigger.retrying s in
      Leaves-past P _ _ _ w h λ e. Leaves-in_tx P _ w h (
        Ensures-written (λ x v'. P v'.store) _ _ _ w
          λ t wrote.
            let moved =
              Moves-written Trigger.retrying s w.store.outbox t (outbox_message_for_replay m now)
                m.status (reach_pending m.status (true_of_not (can_retry m) e)) wrote h in
            Ensures-Audited _ _ svc actor _ _ _ _ _ _
              λ v' (log, same). Ensures-return _ _ v' (rw same moved))

  retry_outbox_message-Moved :
      (actor id : String) (w : World)
      → MovedBy Trigger.retrying s w.store
      → Leaves (MovedBy Trigger.retrying s) (retry_outbox_message svc actor id w)
  unfolding retry_outbox_message get_outbox_message
  retry_outbox_message-Moved actor id w h =
      let P = MovedBy Trigger.retrying s in
      Leaves-then P _ _ (Leaves-guard P _ _ w h) λ u v1 h1.
        Leaves-then P _ _ (Leaves-read P _ _ h1) λ now v2 h2.
          Leaves-then P _ _ (Leaves-read P _ _ h2) λ m v3 h3. retry_found-Moved actor now m v3 h3

  replay_loop-Moved :
      (req : ReplayDeadLetterOutboxRequest) (now : Time) (messages out : List OutboxMessage)
      (w : World)
      → MovedBy Trigger.replaying s w.store
      → Ensures (λ x v. MovedBy Trigger.replaying s v.store) (replay_loop req now messages out w)
  unfolding replay_loop update_outbox_message_status_if_status
  replay_loop-Moved req now [] out w h = Ensures-return _ _ w h
  replay_loop-Moved req now (m ∷ messages) out w h =
      elim (Bool-cases (leb req.limit (length out))) [
        | inl full ↦ rw full (Ensures-return _ _ w h)
        | inr room ↦ rw room (elim (Bool-cases (is_outside req m)) [
          | inl outside ↦ rw outside (replay_loop-Moved req now messages out w h)
          | inr inside ↦ rw inside (
              Ensures-written (λ x v. MovedBy Trigger.replaying s v.store) _ _ _ w
                λ t wrote. replay_loop-Moved req now messages _ _ (
                  Moves-written Trigger.replaying s w.store.outbox t
                    (outbox_message_for_replay m now) OutboxMessageStatus.dead_letter
                    (next here replayed) wrote h))
        ])
      ]

  replay-Moved :
      (texts : ReplayTexts) (actor : String) (req : ReplayDeadLetterOutboxRequest) (w : World)
      → MovedBy Trigger.replaying s w.store
      → Leaves
          (MovedBy Trigger.replaying s)
          (replay_dead_letter_outbox_messages svc texts actor req w)
  unfolding replay_dead_letter_outbox_messages list_outbox_messages
  replay-Moved texts actor req w h =
      let P = MovedBy Trigger.replaying s in
      let Q : List OutboxMessage → World → Type 0 = λ x v. P v.store in
      Leaves-then P _ _ (Leaves-guard P _ _ w h) λ u v1 h1.
        Leaves-then P _ _ (Leaves-read P _ _ h1) λ now v2 h2. Leaves-in_tx P _ v2 h2 (
          Ensures-step Q _ _ _ (
            Ensures-then Q _ Q _ (replay_loop-Moved req now _ [] v2 h2) λ out v3 h3.
              Ensures-step Q _ _ _ (
                Ensures-Audited Q _ svc actor _ _ _ _ _ _
                  λ v' (log, same). Ensures-return Q _ v' (rw same h3))))

-- What triggers the steps of a call.
abbrev pub trigger_of : OutboxCall → Trigger
trigger_of (OutboxCall.turn listed) = Trigger.dispatching
trigger_of (OutboxCall.retry actor id) = Trigger.retrying
trigger_of (OutboxCall.replay actor req) = Trigger.replaying

-- From status to status, each call of a sequence along its own steps.
abbrev pub OutboxTrace : List OutboxCall → OutboxMessageStatus → OutboxMessageStatus → Type 0
OutboxTrace [] s u = s ≡ u
OutboxTrace (call ∷ calls) s u =
    (t : OutboxMessageStatus) × OutboxReach (trigger_of call) s t × OutboxTrace calls t u

module _ (d : OutboxDispatcher) (svc : Service) (texts : ReplayTexts)
    (keeps : (m : OutboxMessage) (w : World)
      → (d.handle_outbox_message m w).1.store.outbox ≡ w.store.outbox) where
  after_call-Moves :
      (call : OutboxCall) (w : World)
      → Moves (trigger_of call) w.store.outbox (after_call d svc texts call w).store.outbox
  unfolding Leaves
  after_call-Moves (OutboxCall.turn m) w =
      run_message-Moved w.store.outbox d keeps m w (Moves-refl Trigger.dispatching w.store.outbox)
  after_call-Moves (OutboxCall.retry actor id) w =
      retry_outbox_message-Moved w.store.outbox svc actor id w
        (Moves-refl Trigger.retrying w.store.outbox)
  after_call-Moves (OutboxCall.replay actor req) w =
      replay-Moved w.store.outbox svc texts actor req w
        (Moves-refl Trigger.replaying w.store.outbox)

-- Through any sequence of turns of a dispatcher, over whichever versions of messages it holds, of
-- retries and of bulk replays, whatever each of them returns, a stored message stays stored, and call
-- by call its status moves only along the steps of that call. A turn claims from pending to processing,
-- and from there releases to pending, delivers, or gives up; a retry leads from dead_letter or failed
-- to pending; a bulk replay from dead_letter to pending. The handler does not write the outbox.
pub outbox_calls_follow_steps :
    (d : OutboxDispatcher) (svc : Service) (texts : ReplayTexts)
    (keeps : (m : OutboxMessage) (w : World)
      → (d.handle_outbox_message m w).1.store.outbox ≡ w.store.outbox)
    (calls : List OutboxCall) (w : World) (id : String) (m : OutboxMessage)
    → lookup id w.store.outbox ≡ some m
    → (m' : OutboxMessage) × (lookup id (after_calls d svc texts calls w).store.outbox ≡ some m')
      × OutboxTrace calls m.status m'.status
outbox_calls_follow_steps d svc texts keeps [] w id m found = (m, found, refl)
outbox_calls_follow_steps d svc texts keeps (call ∷ calls) w id m found =
    let (m1, at, reach) = after_call-Moves d svc texts keeps call w id m found in
    let (m', at', trace) =
      outbox_calls_follow_steps d svc texts keeps calls (after_call d svc texts call w) id m1 at in
    (m', at', (m1.status, reach, trace))
