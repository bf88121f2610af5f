-- ===== src/Store/Outbox.antt =====
-- memory.go: the maps of outbox messages, job attempts and webhook deliveries.
pub mod Due
use Prim.Native.String.{◌++◌}
use ano_pki_community.Common.{
  String, Bool, true, false, Option, none, some, List, ◌==◌, ◌&&◌, not, if◌then◌else◌, is_yes,
  GoMap, lookup, insert, values, select, take, sort_slice, earlier, before, after, equal,
  is_zero_time, ℕ, Time, Result, ok, Error, or_fail, ◌>>=◌, ◌>>◌, reject_if,
}
use ano_pki_community.Domain.{
  OutboxMessage, OutboxMessageStatus, OutboxMessageStatus-discrete, JobAttempt, WebhookDelivery,
}

abbrev pub message_has : OutboxMessageStatus → OutboxMessage → Bool
message_has s m = is_yes (OutboxMessageStatus-discrete m.status s)

abbrev pub due_by_status : OutboxMessageStatus → OutboxMessage → Time → Bool
due_by_status OutboxMessageStatus.pending m now = not (after m.available_at now)
due_by_status OutboxMessageStatus.processing m now =
    not (is_zero_time m.processing_deadline_at) && not (after m.processing_deadline_at now)
due_by_status _ m now = false

unfoldable pub outbox_message_due : OutboxMessage → Time → Bool
outbox_message_due m now = due_by_status m.status m now

unfoldable pub outbox_message_due_at : OutboxMessage → Time
outbox_message_due_at m =
    if message_has OutboxMessageStatus.processing m
    then m.processing_deadline_at
    else m.available_at

-- The order of the queue: by due time, then by age, then by id.
abbrev pub due_first : OutboxMessage → OutboxMessage → Bool
due_first a b =
    if not (equal (outbox_message_due_at a) (outbox_message_due_at b))
    then before (outbox_message_due_at a) (outbox_message_due_at b)
    else earlier a.created_at a.id b.created_at b.id

-- `limit <= 0` returns nil, which is `take 0`.
unfoldable pub list_due_outbox_messages : GoMap OutboxMessage → Time → ℕ → List OutboxMessage
list_due_outbox_messages messages now limit =
    take limit (sort_slice due_first (select (λ m. outbox_message_due m now) (values messages)))

abbrev in_status : Option OutboxMessageStatus → OutboxMessage → Bool
in_status none m = true
in_status (some s) m = message_has s m

-- A status of `none` is the empty text, which selects every message.
unfoldable pub list_outbox_messages :
    GoMap OutboxMessage → Option OutboxMessageStatus → List OutboxMessage
list_outbox_messages messages status =
    sort_slice (λ a b. earlier a.created_at a.id b.created_at b.id)
      (select (in_status status) (values messages))

unfoldable pub update_outbox_message_status_if_status :
    GoMap OutboxMessage → OutboxMessage → OutboxMessageStatus → Result (GoMap OutboxMessage)
update_outbox_message_status_if_status messages m current_status = do
  current ← or_fail (lookup m.id messages) Error.outbox_message_not_found
  reject_if (not (message_has current_status current)) Error.invalid_transition
  ok (insert m.id m messages)

-- The stored message is the one that the caller has read.
abbrev pub same_message : OutboxMessage → OutboxMessage → Bool
same_message stored current =
    is_yes (OutboxMessageStatus-discrete stored.status current.status)
    && equal stored.processing_deadline_at current.processing_deadline_at
    && equal stored.updated_at current.updated_at

unfoldable pub update_outbox_message_if_current :
    GoMap OutboxMessage → OutboxMessage → OutboxMessage → Result (GoMap OutboxMessage)
update_outbox_message_if_current messages m current = do
  stored ← or_fail (lookup m.id messages) Error.outbox_message_not_found
  reject_if (not (same_message stored current)) Error.invalid_transition
  ok (insert m.id m messages)

unfoldable pub list_job_attempts_by_outbox_message : GoMap JobAttempt → String → List JobAttempt
list_job_attempts_by_outbox_message attempts outbox_message_id =
    sort_slice (λ a b. earlier a.created_at a.id b.created_at b.id)
      (select (λ a. a.outbox_message_id == outbox_message_id) (values attempts))

unfoldable pub webhook_delivery_key : String → String → String
webhook_delivery_key outbox_message_id endpoint_id = outbox_message_id ++ "\0" ++ endpoint_id

unfoldable pub get_webhook_delivery :
    GoMap WebhookDelivery → String → String → Result WebhookDelivery
unfolding webhook_delivery_key
get_webhook_delivery deliveries outbox_message_id endpoint_id =
    or_fail (lookup (webhook_delivery_key outbox_message_id endpoint_id) deliveries)
      Error.webhook_delivery_not_found
