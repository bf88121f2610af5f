-- ===== src/Lifecycle/Outbox/Statuses.antt =====
-- outbox_dispatcher.go and service.go: the steps that the status of an outbox message takes in the code,
-- by what triggers them, and what it is for a store to have moved along them. They are not those of
-- docs/reference/state-transitions.md, where a failure with retries left leads to `failed`.
use ano_pki_community.Common.{
  String, ◌≡◌, refl, sym, subst, some, GoMap, lookup, insert, lookup-insert, some_inj, inl, inr,
  ◌∙◌, ◌==◌, ◌≢◌, eq_iff, ap, Bool-cases,
}
use ano_pki_community.Domain.{OutboxMessage, OutboxMessageStatus}

-- A dispatcher's turn, a retry of one message, and a bulk replay.
pub data Trigger : Type 0 where
  dispatching retrying replaying : Trigger

-- A claim, the release of a claimed message (its lease ran out, or it failed with attempts left), a
-- delivery, and the last failure; the retry of a message that was given up or has failed; and the replay
-- of a dead letter.
pub data OutboxStep : Trigger → OutboxMessageStatus → OutboxMessageStatus → Type 0 where
  claimed :
      OutboxStep Trigger.dispatching OutboxMessageStatus.pending OutboxMessageStatus.processing
  released :
      OutboxStep Trigger.dispatching OutboxMessageStatus.processing OutboxMessageStatus.pending
  delivered :
      OutboxStep Trigger.dispatching OutboxMessageStatus.processing OutboxMessageStatus.completed
  given_up :
      OutboxStep Trigger.dispatching OutboxMessageStatus.processing OutboxMessageStatus.dead_letter
  replayed :
      OutboxStep Trigger.replaying OutboxMessageStatus.dead_letter OutboxMessageStatus.pending
  retried_dead :
      OutboxStep Trigger.retrying OutboxMessageStatus.dead_letter OutboxMessageStatus.pending
  retried : OutboxStep Trigger.retrying OutboxMessageStatus.failed OutboxMessageStatus.pending

pub data OutboxReach (k : Trigger) (s : OutboxMessageStatus) : OutboxMessageStatus → Type 0 where
  here : OutboxReach k s s
  next : {t u : OutboxMessageStatus} → OutboxReach k s t → OutboxStep k t u → OutboxReach k s u

pub reach_trans :
    {k : Trigger} {s t u : OutboxMessageStatus}
    → OutboxReach k s t
    → OutboxReach k t u
    → OutboxReach k s u
reach_trans r here = r
reach_trans r (next q step) = next (reach_trans r q) step

step-leaves :
    {k : Trigger} {s t : OutboxMessageStatus} → OutboxStep k s t → s ≢ OutboxMessageStatus.completed
step-leaves claimed e = cc
step-leaves released e = cc
step-leaves delivered e = cc
step-leaves given_up e = cc
step-leaves replayed e = cc
step-leaves retried e = cc
step-leaves retried_dead e = cc

-- No step leads out of `completed`.
pub completed_is_final :
    {k : Trigger} {s : OutboxMessageStatus}
    → OutboxReach k OutboxMessageStatus.completed s
    → s ≡ OutboxMessageStatus.completed
completed_is_final here = refl
completed_is_final (next r step) = absurd (step-leaves step (completed_is_final r))

-- Each message of one store that the other has too is there with a status that steps lead to.
abbrev pub Moves : Trigger → GoMap OutboxMessage → GoMap OutboxMessage → Type 0
Moves k s t =
    (id : String) (m : OutboxMessage)
    → lookup id s ≡ some m
    → (m' : OutboxMessage) × (lookup id t ≡ some m') × OutboxReach k m.status m'.status

pub Moves-refl : (k : Trigger) (s : GoMap OutboxMessage) → Moves k s s
Moves-refl k s id m h = (m, h, here)

pub Moves-insert :
    (k : Trigger) (s t : GoMap OutboxMessage) (old new : OutboxMessage)
    → lookup new.id t ≡ some old
    → OutboxReach k old.status new.status
    → Moves k s t
    → Moves k s (insert new.id new t)
Moves-insert k s t old new found r moves id m h =
    let (m', at, reach) = moves id m h in
    elim (Bool-cases (new.id == id)) [
      | inl e ↦ (
        new,
        lookup-insert new.id id new t ∙ rw e refl,
        reach_trans
            (subst (λ x. OutboxReach k m.status x.status)
              (some_inj m' old
                (sym at ∙ ap (λ j. lookup j t) (sym ((eq_iff new.id id).0 e)) ∙ found))
              reach)
            r,
      )
      | inr e ↦ (m', lookup-insert new.id id new t ∙ rw e at, reach)
    ]
