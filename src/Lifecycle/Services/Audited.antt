-- ===== src/Lifecycle/Services/Audited.antt =====
-- service.go: createAuditEvent and createOutboxMessage, as steps of an operation.
use ano_pki_community.Common.{String, ◌≡◌, refl, Time, GoMap}
use ano_pki_community.Domain.{OutboxMessage}
use ano_pki_community.Audit.Memory.{AuditLog}
use ano_pki_community.Store.State.{MemoryStore}
use ano_pki_community.Store.Repository as Repository
use ano_pki_community.Lifecycle.World.{World, Op, bound}
use ano_pki_community.Lifecycle.World.Ensures.{
  Ensures, Ensures-then, Ensures-step, Ensures-world, Ensures-found,
}
use ano_pki_community.Lifecycle.Services.{
  Service, Fields, create_audit_event, create_outbox_message,
}

-- Only the audit log differs.
abbrev pub Audited : MemoryStore → MemoryStore → Type 0
Audited s t = (log : AuditLog) × (t ≡ record s { audit = log })

-- Only the outbox differs.
abbrev pub Queued : MemoryStore → MemoryStore → Type 0
Queued s t = (messages : GoMap OutboxMessage) × (t ≡ record s { outbox = messages })

pub create_audit_event-Audited :
    (svc : Service) (actor action kind id : String) (at : Time) (fields : Fields) (w : World)
    → Ensures
        (λ u w'. Audited w.store w'.store)
        (create_audit_event svc actor action kind id at fields w)
unfolding create_audit_event Repository.create_audit_event
create_audit_event-Audited svc actor action kind id at fields w =
    Ensures-step _ _ _ _ (Ensures-world _ _ λ u. (_, refl))

create_outbox_message-Queued :
    (svc : Service) (message_type : String) (at : Time) (fields : Fields) (w : World)
    → Ensures (λ u w'. Queued w.store w'.store) (create_outbox_message svc message_type at fields w)
unfolding create_outbox_message Repository.create_outbox_message
create_outbox_message-Queued svc message_type at fields w =
    Ensures-found _ _ _ _ _ λ text e. Ensures-step _ _ _ _ (Ensures-world _ _ λ u. (_, refl))

module _ {B : Type 0} (Q : B → World → Type 0) (k : Unit {0} → Op B) where
  pub Ensures-Audited :
      (svc : Service) (actor action kind id : String) (at : Time) (fields : Fields) (w : World)
      → ((v : World) → Audited w.store v.store → Ensures Q (k tt v))
      → Ensures Q (bound k (create_audit_event svc actor action kind id at fields w))
  Ensures-Audited svc actor action kind id at fields w h =
      Ensures-then Q k _ _ (create_audit_event-Audited svc actor action kind id at fields w)
        λ u v a. h v a

  pub Ensures-Queued :
      (svc : Service) (message_type : String) (at : Time) (fields : Fields) (w : World)
      → ((v : World) → Queued w.store v.store → Ensures Q (k tt v))
      → Ensures Q (bound k (create_outbox_message svc message_type at fields w))
  Ensures-Queued svc message_type at fields w h =
      Ensures-then Q k _ _ (create_outbox_message-Queued svc message_type at fields w)
        λ u v a. h v a
