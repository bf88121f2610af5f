-- ===== src/Examples/Messages.antt =====
-- The dispatcher and the replays together, on one message.
use ano_pki_community.Common.{
  increment, ap, ◌≡◌, ◌≤◌, refl, inl, List, [], ◌∷◌, some, ok, All, length, ℕ, lookup, insert,
  values, sort_slice, insert_sorted,
}
use ano_pki_community.Domain.{OutboxMessage, OutboxMessageStatus, OutboxMessageStatus-discrete}
use ano_pki_community.Audit.Hex.{is_audit_hash}
use ano_pki_community.Audit.Hash.{
  audit_event_hash, canonical_audit_metadata, hash_payload, with_audit_event_hash,
}
use ano_pki_community.Audit.Verify.{
  audit_integrity_error, verify_audit_state, verify_audit_events, checkpoint_failure, verify_loop,
  empty_audit_chain_state, event_failure,
}
use ano_pki_community.Audit.Memory.{append_memory_audit_event}
use ano_pki_community.Store.State.{new_memory_store, within_tx, written}
use ano_pki_community.Store.Outbox as Outbox
use ano_pki_community.Store.Repository as Repository
use ano_pki_community.Lifecycle.World.{Op, World, in_tx, bound, guard}
use ano_pki_community.Lifecycle.Outbox.{effective_outbox_max_attempts}
use ano_pki_community.Lifecycle.Outbox.Ends.{IsEnded, turns, outbox_message_ends}
use ano_pki_community.Lifecycle.Services.{create_audit_event}
use ano_pki_community.Lifecycle.Services.Replays.{
  ReplayDeadLetterOutboxRequest, ReplayTexts, outbox_message_for_replay, replay_loop,
  replay_dead_letter_outbox_messages,
}
use ano_pki_community.Lifecycle.Services.Replays.Window.{
  IsReplayed, replay_dead_letter_outbox_messages_lem,
}
use ano_pki_community.Lifecycle.Messages.{OutboxCall, after_calls}
use ano_pki_community.Lifecycle.Messages.Steps.{OutboxTrace, outbox_calls_follow_steps}
use ano_pki_community.Examples.Outbox.{dispatcher, message, world, message-IsStored}
use ano_pki_community.Examples.Services.{service}

abbrev texts : ReplayTexts
texts = record { nano = λ t. ""; decimal = λ n. "" }

abbrev request : ReplayDeadLetterOutboxRequest
request = record {
  event_type = "certificate.revoked";
  created_from = 1;
  created_to = 1_000;
  limit = 3;
}

abbrev dead : OutboxMessage
dead = record message { status = OutboxMessageStatus.dead_letter; attempt_count = 5 }

abbrev dead_world : World
dead_world = record {
  store = record new_memory_store { outbox = ("m1", dead) ∷ [] };
  readings = 0;
  ids = 0;
}

abbrev bulk : Op (List OutboxMessage)
bulk = replay_dead_letter_outbox_messages service texts "operator" request

replays : (bulk dead_world).0 ≡ ok (outbox_message_for_replay dead 100 ∷ [])
unfolding replay_dead_letter_outbox_messages replay_loop bound guard written in_tx within_tx lookup
    insert values OutboxMessageStatus-discrete Repository.list_outbox_messages
    Outbox.list_outbox_messages Repository.update_outbox_message_status_if_status
    Outbox.update_outbox_message_status_if_status sort_slice insert_sorted new_memory_store
    create_audit_event Repository.create_audit_event append_memory_audit_event audit_integrity_error
    verify_audit_state verify_audit_events checkpoint_failure verify_loop audit_event_hash
    canonical_audit_metadata hash_payload with_audit_event_hash is_audit_hash
    empty_audit_chain_state event_failure increment
replays = refl

replay_dead_letter_outbox_messages_lem_example :
    let out = outbox_message_for_replay dead 100 ∷ [] in
    All (IsReplayed request 100) out × (length out ≤ 3)
replay_dead_letter_outbox_messages_lem_example =
    replay_dead_letter_outbox_messages_lem service texts "operator" request dead_world
      (bulk dead_world).1 (outbox_message_for_replay dead 100 ∷ [])
      (ap (λ r. (r, (bulk dead_world).1)) replays)

abbrev calls : List OutboxCall
calls =
    OutboxCall.turn message
    ∷ OutboxCall.retry "operator" "m1"
    ∷ OutboxCall.turn message
    ∷ OutboxCall.replay "operator" request
    ∷ []

outbox_calls_follow_steps_example :
    (m : OutboxMessage) × (lookup "m1"
        (after_calls dispatcher service texts calls world).store.outbox
      ≡ some m)
    × OutboxTrace calls OutboxMessageStatus.pending m.status
outbox_calls_follow_steps_example =
    outbox_calls_follow_steps dispatcher service texts (λ m w. refl) calls world "m1" message
      message-IsStored

outbox_message_ends_example :
    (n : ℕ) × (n ≤ effective_outbox_max_attempts message)
    × IsEnded "m1" (turns dispatcher n "m1" world)
outbox_message_ends_example =
    outbox_message_ends dispatcher (λ m w. refl) message world (inl refl) message-IsStored refl
