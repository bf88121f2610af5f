-- ===== src/Examples/Outbox.antt =====
-- The dispatcher of outbox_dispatcher.go on one message, with a handler that always fails.
use ano_pki_community.Common.{
  ◌↔◌, length, List, All, Perm, IsSortedBy, GoMap, select, values, min, ◌++◌, ◌≡◌, refl, inl, true,
  some, none, [], ◌∷◌, ◌<◌, ◌≤◌, ◌+◌, ◌*◌, ◌/◌, arith, lookup, ok, minute,
}
use ano_pki_community.Domain.{OutboxMessage, OutboxMessageStatus}
use ano_pki_community.Store.Outbox.{list_due_outbox_messages, outbox_message_due}
use ano_pki_community.Store.Outbox.Due.{due_time, IsDue, list_due_outbox_messages_lem}
use ano_pki_community.Store.State.{new_memory_store}
use ano_pki_community.Lifecycle.World.{World, Environment}
use ano_pki_community.Lifecycle.Outbox.{
  OutboxDispatcher, effective_outbox_max_attempts, outbox_retry_delay_for_attempt,
  outbox_retry_delay_for_message, leased, claim, run_message,
}
use ano_pki_community.Lifecycle.Outbox.Claims.{
  IsStored, IsWritten, read_once, claim_lem, claim_exclusive,
}
use ano_pki_community.Lifecycle.Outbox.Delays.{
  failures, retry_delay_bounds, dead_letter_after_max_attempts,
}
use ano_pki_community.Lifecycle.Outbox.Turns.{IsProcessed, run_message_lem}

abbrev environment : Environment
environment = record { reading = λ n. 100 + n; new_id = λ n. "job" }

abbrev pub dispatcher : OutboxDispatcher
dispatcher = record {
  environment = environment;
  handle_outbox_message = λ message w. (some "webhook failed", w);
  sum32 = λ id attempt. 7;
}

abbrev pub message : OutboxMessage
message = record {
  id = "m1";
  type = "certificate.revoked";
  payload_json = "{}";
  status = OutboxMessageStatus.pending;
  available_at = 90;
  processing_deadline_at = 0;
  attempt_count = 0;
  max_attempts = 2;
  last_error = "";
  created_at = 90;
  updated_at = 90;
}

abbrev pub world : World
world = record {
  store = record new_memory_store { outbox = ("m1", message) ∷ [] };
  readings = 0;
  ids = 0;
}

pub message-IsStored : IsStored message world
unfolding lookup
message-IsStored = refl

claim_lem_example :
    ((claim environment message world).0 ≡ ok (some (leased message 100)))
    × IsWritten (leased message 100) world (claim environment message world).1
claim_lem_example = claim_lem environment message world (inl refl) message-IsStored

message_due : outbox_message_due message 95 ≡ true
unfolding outbox_message_due
message_due = refl

abbrev claimed_world : World
claimed_world = record {
  store = record new_memory_store { outbox = ("m1", leased message 99) ∷ [] };
  readings = 1;
  ids = 0;
}

claimed-IsStored : IsStored (leased message 99) claimed_world
unfolding lookup
claimed-IsStored = refl

claim_exclusive_example :
    claim environment message claimed_world ≡ (ok none, read_once claimed_world)
claim_exclusive_example =
    claim_exclusive environment message 95 99 claimed_world message_due (omega arith)
      claimed-IsStored

retry_delay_bounds_example :
    let base = outbox_retry_delay_for_attempt 0 in
    let delay = outbox_retry_delay_for_message dispatcher message in
    (base ≤ delay) × (delay ≤ base + base / 10) × (minute ≤ delay) × (delay ≤ 66 * minute)
retry_delay_bounds_example = retry_delay_bounds dispatcher message

dead_letter_after_max_attempts_example :
    let last = failures dispatcher message (("first", 100) ∷ ("second", 200) ∷ []) in
    (last.attempt_count ≡ 2)
    × (2 < effective_outbox_max_attempts message → last.status ≡ OutboxMessageStatus.pending)
    × (2 ≡ effective_outbox_max_attempts message → last.status ≡ OutboxMessageStatus.dead_letter)
dead_letter_after_max_attempts_example =
    dead_letter_after_max_attempts dispatcher message ("first", 100) (("second", 200) ∷ []) refl

run_message_lem_example :
    ((run_message dispatcher message world).0 ≡ ok true)
    × IsProcessed
        (leased message 100)
        (some "webhook failed")
        (100 + (read_once (claim environment message world).1).readings)
        (environment.new_id (claim environment message world).1.ids)
        (run_message dispatcher message world).1
run_message_lem_example =
    run_message_lem dispatcher message world (inl refl) message-IsStored
      (claim_lem environment message world (inl refl) message-IsStored).1.stored

-- One of two messages is returned, the earlier.
abbrev queue : GoMap OutboxMessage
queue =
    ("m2", record message { id = "m2"; available_at = 95 })
    ∷ ("m1", message)
    ∷ ("m3", record message { id = "m3"; status = OutboxMessageStatus.completed })
    ∷ []

list_due_outbox_messages_lem_example :
    let out = list_due_outbox_messages queue 100 1 in
    All (IsDue 100) out
    × ((rest : List OutboxMessage) × Perm
          (out ++ rest)
          (select (λ m. outbox_message_due m 100) (values queue))
        × ((m : OutboxMessage) → (outbox_message_due m 100 ≡ true) ↔ IsDue 100 m)
        × IsSortedBy due_time (out ++ rest)
        × (length out ≡ min 1 (length (out ++ rest))))
list_due_outbox_messages_lem_example = list_due_outbox_messages_lem queue 100 1
