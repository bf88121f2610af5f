-- ===== src/Store/Repository/Events.antt =====
-- memory.go: audit events, outbox messages, job attempts and webhook deliveries, as methods of MemoryStore. Those of memoryTx have the same bodies.
use ano_pki_community.Common.{
  String, Option, List, lookup, insert, ℕ, Time, Result, ok, Error, or_fail,
}
use ano_pki_community.Domain.{
  AuditEvent, AuditIntegrity, OutboxMessage, OutboxMessageStatus, JobAttempt, WebhookDelivery,
}
use ano_pki_community.Store.Outbox as Outbox
use ano_pki_community.Store.AuditQuery.{AuditEventQuery, list_audit_events_query as query_events}
use ano_pki_community.Audit.Hash.{AuditCodec}
use ano_pki_community.Audit.Verify.{verify_audit_state}
use ano_pki_community.Audit.Memory.{AuditLog, append_memory_audit_event, prune_memory_audit_events}
use ano_pki_community.Store.State.{MemoryStore, Repo, read, written}

-- A method on the audit log, which it may leave changed beside an error.
abbrev on_audit : {A : Type 0} → MemoryStore → Result A × AuditLog → Result A × MemoryStore
on_audit s (r, log) = (r, record s { audit = log })

unfoldable pub create_audit_event : AuditCodec → AuditEvent → Repo (Unit {0})
create_audit_event c event s = on_audit s (append_memory_audit_event c s.audit event)

unfoldable pub list_audit_events : Repo (List AuditEvent)
list_audit_events = read λ s. ok s.audit.events

unfoldable pub list_audit_events_query : AuditEventQuery → Repo (List AuditEvent)
list_audit_events_query query = read λ s. ok (query_events s.audit.events query)

unfoldable pub verify_audit_chain : AuditCodec → Repo AuditIntegrity
verify_audit_chain c = read λ s. ok (verify_audit_state c s.audit.events s.audit.state)

unfoldable pub delete_audit_events_before : AuditCodec → Time → Repo ℕ
delete_audit_events_before c cutoff s = on_audit s (prune_memory_audit_events c s.audit cutoff)

unfoldable pub create_outbox_message : OutboxMessage → Repo (Unit {0})
create_outbox_message message s = (ok tt, record s { outbox = insert message.id message s.outbox })

unfoldable pub get_outbox_message : String → Repo OutboxMessage
get_outbox_message id = read λ s. or_fail (lookup id s.outbox) Error.outbox_message_not_found

unfoldable pub list_outbox_messages : Option OutboxMessageStatus → Repo (List OutboxMessage)
list_outbox_messages status = read λ s. ok (Outbox.list_outbox_messages s.outbox status)

unfoldable pub list_due_outbox_messages : Time → ℕ → Repo (List OutboxMessage)
list_due_outbox_messages now limit =
    read λ s. ok (Outbox.list_due_outbox_messages s.outbox now limit)

unfoldable pub update_outbox_message_status_if_status :
    OutboxMessage → OutboxMessageStatus → Repo (Unit {0})
update_outbox_message_status_if_status message current_status s =
    written s (λ m. record s { outbox = m })
      (Outbox.update_outbox_message_status_if_status s.outbox message current_status)

unfoldable pub update_outbox_message_if_current : OutboxMessage → OutboxMessage → Repo (Unit {0})
update_outbox_message_if_current message current s =
    written s (λ m. record s { outbox = m })
      (Outbox.update_outbox_message_if_current s.outbox message current)

unfoldable pub create_job_attempt : JobAttempt → Repo (Unit {0})
create_job_attempt attempt s =
    (ok tt, record s { job_attempts = insert attempt.id attempt s.job_attempts })

unfoldable pub list_job_attempts_by_outbox_message : String → Repo (List JobAttempt)
list_job_attempts_by_outbox_message outbox_message_id =
    read λ s. ok (Outbox.list_job_attempts_by_outbox_message s.job_attempts outbox_message_id)

unfoldable pub get_webhook_delivery : String → String → Repo WebhookDelivery
get_webhook_delivery outbox_message_id endpoint_id =
    read λ s. Outbox.get_webhook_delivery s.webhook_deliveries outbox_message_id endpoint_id

unfoldable pub upsert_webhook_delivery : WebhookDelivery → Repo (Unit {0})
upsert_webhook_delivery delivery s = (
  ok tt,
  record s {
    webhook_deliveries =
        insert (Outbox.webhook_delivery_key delivery.outbox_message_id delivery.endpoint_id)
          delivery s.webhook_deliveries;
  },
)
