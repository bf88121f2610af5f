-- ===== src/Lifecycle/Services.antt =====
-- lifecycle/service.go: what the operations of Service share. The text of audit metadata, which
-- auditMetadataJSON makes of the fields and the request's context, is an argument, and so are
-- json.Marshal of an event, strings.TrimSpace, and Time.Format with RFC 3339.
pub mod Audited
pub mod Certificates
pub mod Crls
pub mod Issuance
pub mod Enrollments
pub mod Acme
pub mod ApiKeys
pub mod Replays
pub mod Responders
pub mod Scans
use ano_pki_community.Common.{
  String, ◌≡◌, Bool, Option, List, [], ◌∷◌, ◌++◌, ◌==◌, ◌||◌, if◌then◌else◌, ℕ, Time, zero_time,
  Result, ok, err, Error, or_fail, ℤ,
}
use ano_pki_community.Domain.{AuditEvent, OutboxMessage, OutboxMessageStatus, Identity}
use ano_pki_community.Audit.Hash.{AuditCodec}
use ano_pki_community.Store.Repository as Repository
use ano_pki_community.Lifecycle.World.{
  Environment, Op, return, fail, lift, ◌>>=◌, ◌>>◌, attempt, repo, fresh_id,
}
use ano_pki_community.Lifecycle.Outbox.{default_outbox_max_attempts}

-- The fields of an event, in the order in which they are set.
abbrev pub Fields : Type 0
Fields = List (String × String)

-- A pair with an empty name or value is left out.
abbrev pub audit_fields : Fields → Fields
audit_fields [] = []
audit_fields ((name, value) ∷ fields) =
    let rest = audit_fields fields in
    if name == "" || value == "" then rest else (name, value) ∷ rest

pub record Service : Type 0 where
  pub environment : Environment
  pub codec : AuditCodec
  pub audit_metadata_json : Fields → String → String → String
  pub marshal_event : Fields → Option String
  pub trim_space : String → String
  pub format_time : Time → String

abbrev pub is_blank : Service → String → Bool
is_blank svc value = svc.trim_space value == ""

unfoldable pub create_audit_event :
    Service → String → String → String → String → Time → Fields → Op (Unit {0})
create_audit_event svc actor action resource_type resource_id created_at fields = do
  id ← fresh_id svc.environment
  repo (
      Repository.create_audit_event svc.codec (record {
        id = id;
        sequence = ℤ.pos 0;
        actor = actor;
        action = action;
        resource_type = resource_type;
        resource_id = resource_id;
        metadata_json = svc.audit_metadata_json fields "ok" "";
        hash_algorithm = "";
        previous_event_hash = "";
        event_hash = "";
        created_at = created_at;
      }))

unfoldable pub create_outbox_message : Service → String → Time → Fields → Op (Unit {0})
create_outbox_message svc message_type created_at fields = do
  encoded ← lift (
      or_fail (svc.marshal_event (fields ++ ("event_type", message_type) ∷ []))
        (Error.other_error "json"))
  id ← fresh_id svc.environment
  repo (
      Repository.create_outbox_message (record {
        id = id;
        type = message_type;
        payload_json = encoded;
        status = OutboxMessageStatus.pending;
        available_at = created_at;
        processing_deadline_at = zero_time;
        attempt_count = 0;
        max_attempts = default_outbox_max_attempts;
        last_error = "";
        created_at = created_at;
        updated_at = created_at;
      }))

abbrev with_target : Fields → Result Identity → Op Fields
with_target fields (ok identity) = return (
    if identity.deployment_target == ""
    then fields
    else fields ++ ("deployment_target", identity.deployment_target) ∷ [])
with_target fields (err Error.identity_not_found) = return fields
with_target fields (err e) = fail e

unfoldable pub add_identity_deployment_target : String → Fields → Op Fields
add_identity_deployment_target identity_id fields = do
  identity ← attempt (repo (Repository.get_identity identity_id))
  with_target fields identity

abbrev pub add_status_transition : Fields → String → String → Fields
add_status_transition fields previous next =
    fields ++ ("previous_status", previous) ∷ ("new_status", next) ∷ []
