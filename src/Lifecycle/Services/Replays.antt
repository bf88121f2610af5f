-- ===== src/Lifecycle/Services/Replays.antt =====
-- lifecycle/service.go: RetryOutboxMessage and ReplayDeadLetterOutboxMessages, which put messages that
-- were given up back to the pending ones. A request's limit is not negative here; the texts of
-- time.RFC3339Nano and of a number are arguments.
pub mod Window
use ano_pki_community.Common.{
  String, ℕ, Bool, List, [], ◌∷◌, ◌++◌, ◌==◌, ◌&&◌, ◌||◌, not, is_yes, if◌then◌else◌, length, Time,
  zero_time, is_zero_time, before, after, leb, some, Error,
}
use ano_pki_community.Domain.{OutboxMessage, OutboxMessageStatus, OutboxMessageStatus-discrete}
use ano_pki_community.Store.Repository as Repository
use ano_pki_community.Lifecycle.World.{
  Op, return, ◌>>=◌, ◌>>◌, guard, repo, clock_now, fresh_id, in_tx,
}
use ano_pki_community.Lifecycle.Outbox.{default_outbox_max_attempts}
use ano_pki_community.Lifecycle.Services.{Service, audit_fields, is_blank, create_audit_event}

pub record ReplayDeadLetterOutboxRequest : Type 0 where
  pub event_type : String
  pub created_from : Time
  pub created_to : Time
  pub limit : ℕ

pub record ReplayTexts : Type 0 where
  pub nano : Time → String
  pub decimal : ℕ → String

abbrev pub outbox_message_for_replay : OutboxMessage → Time → OutboxMessage
outbox_message_for_replay message now = record message {
  status = OutboxMessageStatus.pending;
  available_at = now;
  processing_deadline_at = zero_time;
  attempt_count = 0;
  max_attempts =
      if leb message.max_attempts 0 then default_outbox_max_attempts else message.max_attempts;
  last_error = "";
  updated_at = now;
}

abbrev pub can_retry : OutboxMessage → Bool
can_retry m =
    is_yes (OutboxMessageStatus-discrete m.status OutboxMessageStatus.dead_letter)
    || is_yes (OutboxMessageStatus-discrete m.status OutboxMessageStatus.failed)

-- The message is of another type, or made outside the window of the request.
abbrev pub is_outside : ReplayDeadLetterOutboxRequest → OutboxMessage → Bool
is_outside req m =
    not (m.type == req.event_type)
    || before m.created_at req.created_from
    || after m.created_at req.created_to

-- The loop over the dead letters, with those that it has replayed.
unfoldable pub replay_loop :
    ReplayDeadLetterOutboxRequest
    → Time
    → List OutboxMessage
    → List OutboxMessage
    → Op (List OutboxMessage)
replay_loop req now [] replayed = return replayed
replay_loop req now (message ∷ messages) replayed =
    let rest = replay_loop req now messages in
    let updated = outbox_message_for_replay message now in
    if leb req.limit (length replayed)
    then return replayed
    else if is_outside req message
    then rest replayed
    else (repo (
          Repository.update_outbox_message_status_if_status updated OutboxMessageStatus.dead_letter)
        >> rest (replayed ++ updated ∷ []))

module _ (svc : Service) where
  abbrev pub retry_found : String → Time → OutboxMessage → Op OutboxMessage
  retry_found actor now message = do
    guard (not (can_retry message)) Error.invalid_transition
    let next = outbox_message_for_replay message now
    in_tx (do
      repo (Repository.update_outbox_message_status_if_status next message.status)
      create_audit_event svc actor "outbox.retry_requested" "outbox_message" message.id now (
          audit_fields
            (("outbox_message_id", message.id) ∷ ("outbox_message_type", message.type) ∷ []))
      return next)

  unfoldable pub retry_outbox_message : String → String → Op OutboxMessage
  retry_outbox_message actor id = do
    guard (is_blank svc id) Error.invalid_request
    now ← clock_now svc.environment
    message ← repo (Repository.get_outbox_message id)
    retry_found actor now message

  abbrev pub audit_replay :
      ReplayTexts
      → String
      → ReplayDeadLetterOutboxRequest
      → Time
      → List OutboxMessage
      → Op (List OutboxMessage)
  audit_replay texts actor req now replayed = do
    id ← fresh_id svc.environment
    create_audit_event svc actor "outbox.bulk_replay_requested" "outbox_messages" id now (
        audit_fields (
          ("outbox_message_type", req.event_type)
          ∷ ("created_from", texts.nano req.created_from)
          ∷ ("created_to", texts.nano req.created_to)
          ∷ ("limit", texts.decimal req.limit)
          ∷ ("replayed_count", texts.decimal (length replayed))
          ∷ []))
    return replayed

  abbrev pub is_bad_replay : ReplayDeadLetterOutboxRequest → Bool
  is_bad_replay req =
      is_blank svc req.event_type
      || is_zero_time req.created_from
      || is_zero_time req.created_to
      || before req.created_to req.created_from
      || leb req.limit 0

  unfoldable pub replay_dead_letter_outbox_messages :
      ReplayTexts → String → ReplayDeadLetterOutboxRequest → Op (List OutboxMessage)
  replay_dead_letter_outbox_messages texts actor req = do
    guard (is_bad_replay req) Error.invalid_request
    now ← clock_now svc.environment
    in_tx (do
      messages ← repo (Repository.list_outbox_messages (some OutboxMessageStatus.dead_letter))
      replayed ← replay_loop req now messages []
      audit_replay texts actor req now replayed)
