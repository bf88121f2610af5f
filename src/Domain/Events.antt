-- ===== src/Domain/Events.antt =====
-- service/internal/domain/types.go: audit events and their chain, outbox messages, deliveries.
use ano_pki_community.Common.{ℕ, String, Bool, ℤ, Time}
use ano_pki_community.Domain.Status.{OutboxMessageStatus, JobAttemptStatus}

pub record AuditEvent : Type 0 where
  pub id : String
  pub sequence : ℤ
  pub actor : String
  pub action : String
  pub resource_type : String
  pub resource_id : String
  pub metadata_json : String
  pub hash_algorithm : String
  pub previous_event_hash : String
  pub event_hash : String
  pub created_at : Time

pub record AuditChainCheckpoint : Type 0 where
  pub sequence : ℤ
  pub hash_algorithm : String
  pub event_hash : String
  pub created_at : Time

pub record AuditIntegrity : Type 0 where
  pub valid : Bool
  pub hash_algorithm : String
  pub event_count : ℕ
  pub first_sequence : ℤ
  pub last_sequence : ℤ
  pub last_event_hash : String
  pub checkpoint_sequence : ℤ
  pub checkpoint_event_hash : String
  pub failure_reason : String

pub record OutboxMessage : Type 0 where
  pub id : String
  pub type : String
  pub payload_json : String
  pub status : OutboxMessageStatus
  pub available_at : Time
  pub processing_deadline_at : Time
  pub attempt_count : ℕ
  pub max_attempts : ℕ
  pub last_error : String
  pub created_at : Time
  pub updated_at : Time

pub record JobAttempt : Type 0 where
  pub id : String
  pub outbox_message_id : String
  pub status : JobAttemptStatus
  pub error : String
  pub started_at : Time
  pub finished_at : Time
  pub created_at : Time

pub record WebhookDelivery : Type 0 where
  pub outbox_message_id : String
  pub endpoint_id : String
  pub status : JobAttemptStatus
  pub attempt_count : ℕ
  pub last_error : String
  pub last_attempted_at : Time
  pub created_at : Time
  pub updated_at : Time
