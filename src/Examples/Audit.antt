-- ===== src/Examples/Audit.antt =====
-- The audit log of audit_hash.go and memory.go on two events, with a codec that stands for the
-- packages: any text but the empty one is JSON, and every digest is the same.
use ano_pki_community.Common.{
  String, ◌≡◌, refl, ◌↔◌, ◌⊎◌, true, none, some, [], ◌==◌, if◌then◌else◌, ℤ, ok, err, Error,
  increment, max_int64, length, ◌+◌, ◌≤◌, Time, arith,
}
use ano_pki_community.Domain.{AuditEvent}
use ano_pki_community.Audit.Hex.{is_audit_hash}
use ano_pki_community.Audit.Hash.{
  AuditCodec, HexDigests, hash_payload, canonical_audit_metadata, numbered, with_audit_event_hash,
  audit_event_hash,
}
use ano_pki_community.Audit.Verify.{
  verify_audit_events, checkpoint_failure, event_failure, verify_loop, audit_integrity_error,
  empty_audit_chain_state, verify_audit_state,
}
use ano_pki_community.Audit.Memory.{
  AuditLog, append_memory_audit_event, appended, prune_memory_audit_events,
}
use ano_pki_community.Audit.Chain.{IsIntact, verify_audit_state_iff}
use ano_pki_community.Audit.Append.{append-IsIntact, append_error_unchanged, append_lem}
use ano_pki_community.Audit.Prune.{prune_lem, Split, Deleted}
use ano_pki_community.Audit.Tamper.{tamper_evident, SamePayloads, Collision}

abbrev digest : String
digest = "0123456789abcdef0123456789abcdef0123456789abcdef0123456789abcdef"

abbrev codec : AuditCodec
codec = record {
  next_json = λ value. if value == "" then none else some (value, "");
  at_eof = λ rest. true;
  marshal_payload = λ payload. some payload.id;
  format_time = λ at. "2026-01-01T00:00:00Z";
  sha256_hex = λ input. digest;
}

codec-HexDigests : HexDigests codec
unfolding is_audit_hash
codec-HexDigests input = refl

abbrev event : String → String → Time → AuditEvent
event id metadata at = record {
  id = id;
  sequence = ℤ.pos 0;
  actor = "operator";
  action = "certificate.revoked";
  resource_type = "certificate";
  resource_id = "cert-1";
  metadata_json = metadata;
  hash_algorithm = "";
  previous_event_hash = "";
  event_hash = "";
  created_at = at;
}

abbrev empty_log : AuditLog
empty_log = record { events = []; state = empty_audit_chain_state }

abbrev first : AuditEvent
first = event "audit-1" "{}" 10

abbrev second_event : AuditEvent
second_event = event "audit-2" "{}" 20

abbrev one_log : AuditLog
one_log = (append_memory_audit_event codec empty_log first).1

abbrev two_log : AuditLog
two_log = (append_memory_audit_event codec one_log second_event).1

empty-IsIntact : IsIntact codec empty_log.events empty_log.state
unfolding verify_audit_state empty_audit_chain_state verify_audit_events checkpoint_failure
    verify_loop
empty-IsIntact = (verify_audit_state_iff codec [] empty_audit_chain_state).0 refl

one-IsIntact : IsIntact codec one_log.events one_log.state
one-IsIntact = append-IsIntact codec codec-HexDigests empty_log first empty-IsIntact

two-IsIntact : IsIntact codec two_log.events two_log.state
two-IsIntact = append-IsIntact codec codec-HexDigests one_log second_event one-IsIntact

verify_audit_state_iff_example :
    ((verify_audit_state codec two_log.events two_log.state).valid ≡ true)
    ↔ IsIntact codec two_log.events two_log.state
verify_audit_state_iff_example = verify_audit_state_iff codec two_log.events two_log.state

append-IsIntact_example :
    let log = (append_memory_audit_event codec two_log first).1 in
    IsIntact codec log.events log.state
append-IsIntact_example = append-IsIntact codec codec-HexDigests two_log first two-IsIntact

append_of_bad_metadata :
    (append_memory_audit_event codec empty_log (event "audit-3" "" 30)).0
    ≡ err (Error.other_error "decode audit metadata")
unfolding append_memory_audit_event with_audit_event_hash audit_event_hash hash_payload
    canonical_audit_metadata verify_audit_state empty_audit_chain_state verify_audit_events
    checkpoint_failure verify_loop audit_integrity_error increment event_failure is_audit_hash
append_of_bad_metadata = refl

append_error_unchanged_example :
    (append_memory_audit_event codec empty_log (event "audit-3" "" 30)).1 ≡ empty_log
append_error_unchanged_example =
    append_error_unchanged codec codec-HexDigests empty_log (event "audit-3" "" 30)
      (Error.other_error "decode audit metadata") append_of_bad_metadata

starts_at_zero : empty_log.state.latest_sequence ≡ ℤ.pos 0
unfolding empty_audit_chain_state
starts_at_zero = refl

payload_of_first :
    hash_payload codec (numbered (ℤ.pos 1) empty_log.state.latest_event_hash first) ≡ ok "audit-1"
unfolding hash_payload canonical_audit_metadata
payload_of_first = refl

append_lem_example :
    let prepared = record (numbered (ℤ.pos 1) empty_log.state.latest_event_hash first) {
      event_hash = digest;
    } in
    (append_memory_audit_event codec empty_log first ≡ (ok tt, appended codec empty_log prepared))
    × IsIntact codec
        (appended codec empty_log prepared).events
        (appended codec empty_log prepared).state
append_lem_example =
    append_lem codec codec-HexDigests empty_log first 0 "audit-1" empty-IsIntact starts_at_zero
      (omega arith) payload_of_first

checkpoint_at_zero : two_log.state.checkpoint_sequence ≡ ℤ.pos 0
unfolding append_memory_audit_event with_audit_event_hash audit_event_hash hash_payload
    canonical_audit_metadata verify_audit_state empty_audit_chain_state verify_audit_events
    checkpoint_failure verify_loop audit_integrity_error increment event_failure is_audit_hash
checkpoint_at_zero = refl

two_events : 0 + length two_log.events ≤ max_int64
unfolding append_memory_audit_event with_audit_event_hash audit_event_hash hash_payload
    canonical_audit_metadata verify_audit_state empty_audit_chain_state verify_audit_events
    checkpoint_failure verify_loop audit_integrity_error increment event_failure is_audit_hash
two_events = omega arith

-- Retention between the two events deletes the first.
prune_lem_example :
    let out = prune_memory_audit_events codec two_log 15 in
    ((s : Split 15 two_log.events) × Deleted codec (length s.deleted) s.kept out)
    ⊎ ((¬ Split 15 two_log.events)
        × (out ≡ (err (Error.audit_integrity "retention_cutoff_non_prefix"), two_log)))
prune_lem_example = prune_lem codec two_log 15 0 two-IsIntact checkpoint_at_zero two_events

-- Another event in the first place, which has the same digest under this codec.
abbrev forged_log : AuditLog
forged_log = (append_memory_audit_event codec empty_log (event "audit-9" "{}" 10)).1

one_verifies : (verify_audit_state codec one_log.events one_log.state).valid ≡ true
one_verifies = (verify_audit_state_iff codec one_log.events one_log.state).1 one-IsIntact

forged_verifies : (verify_audit_state codec forged_log.events one_log.state).valid ≡ true
unfolding append_memory_audit_event with_audit_event_hash audit_event_hash hash_payload
    canonical_audit_metadata verify_audit_state empty_audit_chain_state verify_audit_events
    checkpoint_failure verify_loop audit_integrity_error increment event_failure is_audit_hash
forged_verifies = refl

one_checkpoint : one_log.state.checkpoint_sequence ≡ ℤ.pos 0
unfolding append_memory_audit_event with_audit_event_hash audit_event_hash hash_payload
    canonical_audit_metadata verify_audit_state empty_audit_chain_state verify_audit_events
    checkpoint_failure verify_loop audit_integrity_error increment event_failure is_audit_hash
one_checkpoint = refl

one_event : 0 + length one_log.events ≤ max_int64
unfolding append_memory_audit_event with_audit_event_hash audit_event_hash hash_payload
    canonical_audit_metadata verify_audit_state empty_audit_chain_state verify_audit_events
    checkpoint_failure verify_loop audit_integrity_error increment event_failure is_audit_hash
one_event = omega arith

forged_event : 0 + length forged_log.events ≤ max_int64
unfolding append_memory_audit_event with_audit_event_hash audit_event_hash hash_payload
    canonical_audit_metadata verify_audit_state empty_audit_chain_state verify_audit_events
    checkpoint_failure verify_loop audit_integrity_error increment event_failure is_audit_hash
forged_event = omega arith

tamper_evident_example :
    SamePayloads codec one_log.events forged_log.events
    ⊎ Collision codec one_log.events forged_log.events
tamper_evident_example =
    tamper_evident codec 0 one_log.events forged_log.events one_log.state one_checkpoint one_event
      forged_event one_verifies forged_verifies
