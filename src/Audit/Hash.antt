-- ===== src/Audit/Hash.antt =====
-- audit_hash.go: the payload of an audit event and its hash.
use ano_pki_community.Common.{
  String, ◌≡◌, Bool, true, Option, none, some, ℤ, Time, Result, ok, err, Error, or_fail, ◌>>=◌,
  ◌>>◌, reject_if, is_negative, is_zero, ◌||◌, if◌then◌else◌,
}
use Prim.Native.String.{◌++◌}
use ano_pki_community.Domain.{AuditEvent}
use ano_pki_community.Audit.Hex.{is_audit_hash}

abbrev pub sha256_v1 : String
sha256_v1 = "sha256-v1"

pub record AuditHashPayload : Type 0 where
  pub hash_algorithm : String
  pub sequence : ℤ
  pub id : String
  pub actor : String
  pub action : String
  pub resource_type : String
  pub resource_id : String
  pub metadata : String
  pub created_at : String

-- What audit_hash.go takes from the packages encoding/json, crypto/sha256, encoding/hex and time.
pub record AuditCodec : Type 0 where
  -- The next JSON value of a text, marshalled again, and the text after it.
  pub next_json : String → Option (String × String)
  -- Nothing but white space is left.
  pub at_eof : String → Bool
  pub marshal_payload : AuditHashPayload → Option String
  -- time.RFC3339Nano in UTC.
  pub format_time : Time → String
  -- hex.EncodeToString of the SHA-256 digest.
  pub sha256_hex : String → String

-- hex.EncodeToString of 32 bytes is 64 digits in lower case.
abbrev pub HexDigests : AuditCodec → Type 0
HexDigests c = (input : String) → is_audit_hash (c.sha256_hex input) ≡ true

-- The event with its number, its algorithm and the hash before it.
abbrev pub numbered : ℤ → String → AuditEvent → AuditEvent
numbered sequence previous_hash event = record event {
  sequence = sequence;
  hash_algorithm = sha256_v1;
  previous_event_hash = previous_hash;
}

module _ (c : AuditCodec) where
  after_value : Option (String × String) → Result String
  after_value none = err (Error.other_error "decode audit metadata")
  after_value (some (canonical, rest)) =
      if c.at_eof rest then ok canonical else err (Error.other_error "decode audit metadata")

  unfoldable pub canonical_audit_metadata : String → Result String
  unfolding after_value
  canonical_audit_metadata value = after_value (c.next_json value)

  -- The bytes that are hashed, after the previous hash.
  unfoldable pub hash_payload : AuditEvent → Result String
  unfolding canonical_audit_metadata
  hash_payload event = do
    canonical ← canonical_audit_metadata event.metadata_json
    or_fail
        (c.marshal_payload (record {
          hash_algorithm = event.hash_algorithm;
          sequence = event.sequence;
          id = event.id;
          actor = event.actor;
          action = event.action;
          resource_type = event.resource_type;
          resource_id = event.resource_id;
          metadata = canonical;
          created_at = c.format_time event.created_at;
        }))
        (Error.other_error "marshal audit hash payload")

  unfoldable pub audit_event_hash : String → AuditEvent → Result String
  audit_event_hash previous_hash event = do
    payload ← hash_payload event
    ok (c.sha256_hex (previous_hash ++ payload))

  unfoldable pub with_audit_event_hash : ℤ → String → AuditEvent → Result AuditEvent
  with_audit_event_hash sequence previous_hash event = do
    reject_if (is_negative sequence || is_zero sequence)
        (Error.other_error "audit sequence must be positive")
    hash ← audit_event_hash previous_hash (numbered sequence previous_hash event)
    ok (record (numbered sequence previous_hash event) { event_hash = hash })
