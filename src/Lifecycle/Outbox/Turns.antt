-- ===== src/Lifecycle/Outbox/Turns.antt =====
-- outbox_dispatcher.go: one turn of the loop of RunOnce, from the listed message to the stored outcome.
use ano_pki_community.Common.{
  String, ◌≡◌, refl, subst, true, Option, none, some, ◌+◌, Time, ok, lookup, insert,
  lookup-insert_self, Bool-cases, leb, inl, inr,
}
use ano_pki_community.Domain.{OutboxMessage, OutboxMessageStatus, JobAttempt}
use ano_pki_community.Store.Outbox.{
  same_message, update_outbox_message_if_current as conditional_write,
}
use ano_pki_community.Store.State.{within_tx, written}
use ano_pki_community.Store.Repository.{update_outbox_message_if_current, create_job_attempt}
use ano_pki_community.Lifecycle.World.{World, in_tx, bound, guard}
use ano_pki_community.Lifecycle.Outbox.{
  OutboxDispatcher, leased, claim, finish, finished, settle, effective_outbox_max_attempts,
  run_message, attempt_status, attempt_error, process,
}
use ano_pki_community.Lifecycle.Outbox.Claims.{
  IsClaimable, IsStored, claim_lem, read_once, put, same_message_refl,
}
use ano_pki_community.Lifecycle.Outbox.Delays.{Outcome, settled, settled-Outcome}

-- The world with a job attempt written.
abbrev pub noted : JobAttempt → World → World
noted j w = record w {
  store = record w.store { job_attempts = insert j.id j w.store.job_attempts };
}

finish_stored :
    (m stored : OutboxMessage) (status : OutboxMessageStatus) (j : JobAttempt) (w : World)
    → lookup m.id w.store.outbox ≡ some stored
    → same_message stored m ≡ true
    → finish m status j w ≡ (ok tt, noted j (put (finished m status j.finished_at) w))
unfolding bound guard written finish in_tx within_tx update_outbox_message_if_current
    conditional_write create_job_attempt
finish_stored m stored status j w k s = rw (k, s) refl

-- Settling changes nothing that the conditional write of `finish` looks at.
settle_same :
    (d : OutboxDispatcher) (c : OutboxMessage) (failure : Option String) (at : Time)
    → let m = (settle d c failure at).0 in (m.id ≡ c.id) × (same_message c m ≡ true)
unfolding settle
settle_same d c none at = (refl, same_message_refl c)
settle_same d c (some text) at =
    elim (Bool-cases (leb (effective_outbox_max_attempts c) (c.attempt_count + 1))) [
      | inl p ↦ rw p (refl, same_message_refl c)
      | inr p ↦ rw p (refl, same_message_refl c)
    ]

-- What a turn leaves behind for a claimed message that the handler answered at `at`.
pub record IsProcessed (claimed : OutboxMessage) (failure : Option String) (at : Time)
    (job_id : String) (last : World) : Type 0 where
  pub next : OutboxMessage
  pub stored : lookup claimed.id last.store.outbox ≡ some next
  pub same_id : next.id ≡ claimed.id
  pub outcome : Outcome claimed failure at next
  pub job : JobAttempt
  pub on_record : lookup job_id last.store.job_attempts ≡ some job
  pub of_message : job.outbox_message_id ≡ claimed.id
  pub answered : (job.status ≡ attempt_status failure) × (job.error ≡ attempt_error failure)
  pub finished_then : job.finished_at ≡ at

process_lem :
    (d : OutboxDispatcher) (claimed : OutboxMessage) (w : World)
    → let (failure, w') = d.handle_outbox_message claimed (read_once w) in
      IsStored claimed w'
      → let env = d.environment in
        let (result, last) = process d (some claimed) w in
        (result ≡ ok true)
        × IsProcessed claimed failure (env.reading w'.readings) (env.new_id w'.ids) last
unfolding bound guard written
process_lem d claimed w h =
    let env = d.environment in
    let answer = d.handle_outbox_message claimed (read_once w) in
    let failure = answer.0 in
    let w' = answer.1 in
    let at = env.reading w'.readings in
    let same = settle_same d claimed failure at in
    rw
      (finish_stored (settle d claimed failure at).0 claimed (settle d claimed failure at).1 _
        (record w' { readings = w'.readings + 1; ids = w'.ids + 1 }) (rw same.0 h) same.1)
      (
        refl,
        record {
          next = settled d claimed failure at;
          stored =
              subst
                (λ id.
                  lookup id (
                    insert (settle d claimed failure at).0.id (settled d claimed failure at)
                      w'.store.outbox)
                  ≡ some (settled d claimed failure at))
                same.0
                (lookup-insert_self (settle d claimed failure at).0.id
                  (settled d claimed failure at) w'.store.outbox);
          same_id = same.0;
          outcome = settled-Outcome d claimed failure at;
          job = _;
          on_record = lookup-insert_self (env.new_id w'.ids) _ w'.store.job_attempts;
          of_message = same.0;
          answered = (refl, refl);
          finished_then = refl;
        },
      )

-- One turn of RunOnce over a pending or processing message that is stored as it was listed, with a
-- handler that leaves the claimed message as it is. The message is processed: it is stored with the
-- outcome that the handler's answer asks for, and the attempt is on record under a new id.
pub run_message_lem :
    (d : OutboxDispatcher) (m : OutboxMessage) (w : World)
    → IsClaimable m
    → IsStored m w
    → let env = d.environment in
      let claimed = leased m (env.reading w.readings) in
      let (failure, w') = d.handle_outbox_message claimed (read_once (claim env m w).1) in
      IsStored claimed w'
      → let (result, last) = run_message d m w in
        (result ≡ ok true)
        × IsProcessed claimed failure (env.reading w'.readings) (env.new_id w'.ids) last
unfolding bound guard written run_message
run_message_lem d m w c k h =
    let env = d.environment in
    rw (claim_lem env m w c k).0
      (process_lem d (leased m (env.reading w.readings)) (claim env m w).1 h)
