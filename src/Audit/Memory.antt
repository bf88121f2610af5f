-- ===== src/Audit/Memory.antt =====
-- memory.go: appendMemoryAuditEvent, pruneMemoryAuditEvents and auditRetentionPrefixLength. The two
-- pointers that they write through are the fields of `AuditLog`.
use ano_pki_community.Common.{
  drop, Bool, true, false, Option, none, some, List, [], ◌∷◌, ◌++◌, if◌then◌else◌, ℕ, zero, suc,
  ◌+◌, Time, before, Result, ok, err, Error, increment,
}
use ano_pki_community.Domain.{AuditEvent, AuditIntegrity}
use ano_pki_community.Audit.Hash.{AuditCodec, sha256_v1, with_audit_event_hash}
use ano_pki_community.Audit.Verify.{AuditChainState, verify_audit_state, audit_integrity_error}

pub record AuditLog : Type 0 where
  pub events : List AuditEvent
  pub state : AuditChainState

-- The length of the prefix before the cutoff; `none` is the -1 for an older event behind a newer.
unfoldable pub retention_loop : Time → ℕ → Bool → List AuditEvent → Option ℕ
retention_loop cutoff delete_count seen_retained [] = some delete_count
retention_loop cutoff delete_count seen_retained (event ∷ events) =
    let counted = retention_loop cutoff (delete_count + 1) seen_retained events in
    let retained = retention_loop cutoff delete_count true events in
    if before event.created_at cutoff then (if seen_retained then none else counted) else retained

unfoldable pub audit_retention_prefix_length : List AuditEvent → Time → Option ℕ
unfolding retention_loop
audit_retention_prefix_length events cutoff = retention_loop cutoff 0 false events

-- The event behind which `n` more are deleted, or the last of those.
abbrev pub last_deleted : AuditEvent → ℕ → List AuditEvent → AuditEvent
last_deleted event zero events = event
last_deleted event (suc n) [] = event
last_deleted event (suc n) (next ∷ events) = last_deleted next n events

module _ (c : AuditCodec) where
  abbrev pub report_of : AuditLog → AuditIntegrity
  report_of log = verify_audit_state c log.events log.state

  -- The log with a prepared event behind the others, as latest of the chain.
  abbrev pub appended : AuditLog → AuditEvent → AuditLog
  appended log prepared = record {
    events = log.events ++ prepared ∷ [];
    state = record log.state {
      hash_algorithm = sha256_v1;
      latest_sequence = prepared.sequence;
      latest_event_hash = prepared.event_hash;
      updated_at = prepared.created_at;
    };
  }

  after_append : AuditLog → Result (Unit {0}) × AuditLog
  after_append log = (audit_integrity_error (report_of log), log)

  append_prepared : AuditLog → Result AuditEvent → Result (Unit {0}) × AuditLog
  unfolding after_append
  append_prepared log (err e) = (err e, log)
  append_prepared log (ok prepared) = after_append (appended log prepared)

  unfoldable pub append_memory_audit_event : AuditLog → AuditEvent → Result (Unit {0}) × AuditLog
  unfolding append_prepared
  append_memory_audit_event log event = elim (audit_integrity_error (report_of log)) [
    | err e ↦ (err e, log)
    | ok _ ↦ append_prepared log (
        with_audit_event_hash c (increment (report_of log).last_sequence)
          (report_of log).last_event_hash event)
  ]

  -- The log without its first `n + 1` events, the last of which becomes the checkpoint.
  abbrev pub pruned : AuditLog → AuditEvent → List AuditEvent → AuditLog
  pruned log deleted kept = record {
    events = kept;
    state = record log.state {
      hash_algorithm = sha256_v1;
      checkpoint_sequence = deleted.sequence;
      checkpoint_event_hash = deleted.event_hash;
      updated_at = deleted.created_at;
    };
  }

  unfoldable pub after_prune : ℕ → AuditLog → Result ℕ × AuditLog
  after_prune delete_count log =
      if (report_of log).valid
      then (ok delete_count, log)
      else (err (Error.audit_integrity (report_of log).failure_reason), log)

  -- The steps behind the count: `none` is -1. The list of a positive count is not empty.
  unfoldable pub prune_prefix : AuditLog → Option ℕ → List AuditEvent → Result ℕ × AuditLog
  prune_prefix log none events = (err (Error.audit_integrity "retention_cutoff_non_prefix"), log)
  prune_prefix log (some zero) events = (ok 0, log)
  prune_prefix log (some (suc n)) [] = (ok 0, log)
  prune_prefix log (some (suc n)) (event ∷ events) =
      after_prune (suc n) (pruned log (last_deleted event n events) (drop n events))

  unfoldable pub prune_memory_audit_events : AuditLog → Time → Result ℕ × AuditLog
  prune_memory_audit_events log cutoff = elim (audit_integrity_error (report_of log)) [
    | err e ↦ (err e, log)
    | ok _ ↦ prune_prefix log (audit_retention_prefix_length log.events cutoff) log.events
  ]
