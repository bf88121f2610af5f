-- ===== src/Lifecycle/Outbox.antt =====
-- lifecycle/outbox_dispatcher.go: the dispatcher of outbox messages. The handler is a function of the
-- claimed message that may act on the world; `some` text is its error.
pub mod Statuses
pub mod Claims
pub mod Delays
pub mod Turns
pub mod Ends
use ano_pki_community.Common.{
  String, ℕ, ◌+◌, ◌*◌, ◌/◌, ◌%◌, Bool, true, false, Option, none, some, List, [], ◌∷◌,
  if◌then◌else◌, Time, Duration, zero_time, minute, hour, ltb, leb, eqb, Result, ok, err, Error,
}
use ano_pki_community.Domain.{OutboxMessage, OutboxMessageStatus, JobAttempt, JobAttemptStatus}
use ano_pki_community.Store.Repository.{
  update_outbox_message_if_current, create_job_attempt, list_due_outbox_messages,
}
use ano_pki_community.Lifecycle.World.{
  World, Environment, Op, return, fail, ◌>>=◌, ◌>>◌, attempt, repo, clock_now, fresh_id, in_tx,
}

abbrev pub default_outbox_max_attempts : ℕ
default_outbox_max_attempts = 5

abbrev pub default_outbox_processing_lease : Duration
default_outbox_processing_lease = 10 * minute

-- The dispatcher's fields but the repository. `sum32` is the FNV-1a hash of hash/fnv over the bytes of
-- the id and the eight bytes of the attempt count.
pub record OutboxDispatcher : Type 0 where
  pub environment : Environment
  pub handle_outbox_message : OutboxMessage → World → Option String × World
  pub sum32 : String → ℕ → ℕ

unfoldable pub effective_outbox_max_attempts : OutboxMessage → ℕ
effective_outbox_max_attempts message =
    if ltb 0 message.max_attempts then message.max_attempts else default_outbox_max_attempts

-- The table outboxRetryDelays, the last of which serves every later attempt.
unfoldable pub outbox_retry_delay_for_attempt : ℕ → Duration
outbox_retry_delay_for_attempt attempt_count =
    if leb attempt_count 1
    then minute
    else if eqb attempt_count 2
    then 5 * minute
    else if eqb attempt_count 3
    then 15 * minute
    else hour

module _ (d : OutboxDispatcher) where
  unfoldable pub outbox_retry_delay_for_message : OutboxMessage → Duration
  outbox_retry_delay_for_message message =
      let base = outbox_retry_delay_for_attempt message.attempt_count in
      let jitter_max = base / 10 in
      if leb jitter_max 0
      then base
      else base + d.sum32 message.id message.attempt_count % (jitter_max + 1)

-- Another dispatcher has the message.
abbrev pub is_lost : Error → Bool
is_lost Error.invalid_transition = true
is_lost Error.outbox_message_not_found = true
is_lost _ = false

abbrev pub recovered : OutboxMessage → Time → OutboxMessage
recovered message now = record message {
  status = OutboxMessageStatus.pending;
  processing_deadline_at = zero_time;
  updated_at = now;
}

abbrev pub leased : OutboxMessage → Time → OutboxMessage
leased message now = record message {
  status = OutboxMessageStatus.processing;
  processing_deadline_at = now + default_outbox_processing_lease;
  updated_at = now;
}

-- What comes of a conditional write of `next`.
abbrev pub replaced : OutboxMessage → Result (Unit {0}) → Op (Option OutboxMessage)
replaced next (ok _) = return (some next)
replaced next (err e) = if is_lost e then return none else fail e

abbrev pub replace : OutboxMessage → OutboxMessage → Op (Option OutboxMessage)
replace next current = do
  written ← attempt (repo (update_outbox_message_if_current next current))
  replaced next written

abbrev pub lease_recovered : Time → Option OutboxMessage → Op (Option OutboxMessage)
lease_recovered now none = return none
lease_recovered now (some message) = replace (leased message now) message

abbrev pub claim_by_status :
    Environment → OutboxMessageStatus → OutboxMessage → Op (Option OutboxMessage)
claim_by_status env OutboxMessageStatus.pending message = do
  now ← clock_now env
  replace (leased message now) message
claim_by_status env OutboxMessageStatus.processing message = do
  now ← clock_now env
  again ← replace (recovered message now) message
  lease_recovered now again
claim_by_status env _ message = return none

-- `none` is the `false` of a message that was not claimed.
unfoldable pub claim : Environment → OutboxMessage → Op (Option OutboxMessage)
claim env message = claim_by_status env message.status message

abbrev pub finished : OutboxMessage → OutboxMessageStatus → Time → OutboxMessage
finished message status at = record message {
  status = status;
  processing_deadline_at = zero_time;
  updated_at = at;
}

unfoldable pub finish : OutboxMessage → OutboxMessageStatus → JobAttempt → Op (Unit {0})
finish message status done = in_tx (do
  repo (update_outbox_message_if_current (finished message status done.finished_at) message)
  repo (create_job_attempt done))

-- How a message goes on: its next version before `finish`, and its next status.
unfoldable pub settle :
    OutboxDispatcher → OutboxMessage → Option String → Time → OutboxMessage × OutboxMessageStatus
settle d claimed none finished_at =
    (record claimed { last_error = "" }, OutboxMessageStatus.completed)
settle d claimed (some text) finished_at =
    let counted = record claimed {
      attempt_count = claimed.attempt_count + 1;
      max_attempts = effective_outbox_max_attempts claimed;
      last_error = text;
    } in
    if leb counted.max_attempts counted.attempt_count
    then (counted, OutboxMessageStatus.dead_letter)
    else (
      record counted { available_at = finished_at + outbox_retry_delay_for_message d counted },
      OutboxMessageStatus.pending,
    )

abbrev pub attempt_status : Option String → JobAttemptStatus
attempt_status none = JobAttemptStatus.succeeded
attempt_status (some text) = JobAttemptStatus.failed

abbrev pub attempt_error : Option String → String
attempt_error none = ""
attempt_error (some text) = text

module _ (d : OutboxDispatcher) where
  abbrev pub handled : OutboxMessage → Op (Option String)
  handled message w = let (failure, w') = d.handle_outbox_message message w in (ok failure, w')

  -- The body of the loop behind a claim. It reports a message as processed.
  abbrev pub process : Option OutboxMessage → Op Bool
  process none = return false
  process (some claimed) = do
    started_at ← clock_now d.environment
    failure ← handled claimed
    finished_at ← clock_now d.environment
    id ← fresh_id d.environment
    let (message, status) = settle d claimed failure finished_at
    finish message status (record {
      id = id;
      outbox_message_id = message.id;
      status = attempt_status failure;
      error = attempt_error failure;
      started_at = started_at;
      finished_at = finished_at;
      created_at = finished_at;
    })
    return true

  unfoldable pub run_message : OutboxMessage → Op Bool
  run_message message = do claimed ← claim d.environment message; process claimed

  counted_on : ℕ → Bool → ℕ
  counted_on processed true = processed + 1
  counted_on processed false = processed

  -- The count comes back beside an error as well.
  unfoldable pub run_loop : List OutboxMessage → ℕ → World → (ℕ × Result (Unit {0})) × World
  unfolding counted_on
  run_loop [] processed w = ((processed, ok tt), w)
  run_loop (message ∷ messages) processed w =
      let (result, w') = run_message message w in
      elim result [
        | ok done ↦ run_loop messages (counted_on processed done) w'
        | err e ↦ ((processed, err e), w')
      ]

  run_listed : Result (List OutboxMessage) × World → (ℕ × Result (Unit {0})) × World
  run_listed (ok messages, w) = run_loop messages 0 w
  run_listed (err e, w) = ((0, err e), w)

  unfoldable pub run_once : ℕ → World → (ℕ × Result (Unit {0})) × World
  unfolding run_listed
  run_once limit w =
      run_listed ((clock_now d.environment >>= λ now. repo (list_due_outbox_messages now limit)) w)
