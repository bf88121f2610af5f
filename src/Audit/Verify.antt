-- ===== src/Audit/Verify.antt =====
-- audit_hash.go: verifyAuditEvents and verifyAuditState.
use ano_pki_community.Common.{
  String, Bool, true, false, not, ◌&&◌, ◌||◌, Option, List, [], ◌∷◌, ◌==◌, if◌then◌else◌, length, ℤ,
  Time, Result, ok, err, Error, eq_int64, is_negative, is_zero, increment,
}
use ano_pki_community.Domain.{AuditEvent, AuditChainCheckpoint, AuditIntegrity}
use ano_pki_community.Audit.Hex.{is_audit_hash}
use ano_pki_community.Audit.Hash.{AuditCodec, sha256_v1, audit_event_hash}

pub record AuditChainState : Type 0 where
  pub hash_algorithm : String
  pub latest_sequence : ℤ
  pub latest_event_hash : String
  pub checkpoint_sequence : ℤ
  pub checkpoint_event_hash : String
  pub updated_at : Time

unfoldable pub empty_audit_chain_state : AuditChainState
empty_audit_chain_state = record {
  hash_algorithm = sha256_v1;
  latest_sequence = ℤ.pos 0;
  latest_event_hash = "";
  checkpoint_sequence = ℤ.pos 0;
  checkpoint_event_hash = "";
  updated_at = 0;
}

-- report.FailureReason = reason; return report
abbrev pub failed : AuditIntegrity → String → AuditIntegrity
failed report reason = record report { failure_reason = reason }

-- The report that the checks before the loop leave, by the reason for which one of them fails.
unfoldable pub checkpoint_failure : AuditChainCheckpoint → Option String
checkpoint_failure cp =
    if is_negative cp.sequence
    then Option.some "checkpoint_sequence_invalid"
    else if is_zero cp.sequence
    then if not (cp.event_hash == "")
      then Option.some "checkpoint_hash_unexpected"
      else if not (cp.hash_algorithm == "") && not (cp.hash_algorithm == sha256_v1)
      then Option.some "checkpoint_algorithm_mismatch"
      else Option.none
    else if not (cp.hash_algorithm == sha256_v1)
    then Option.some "checkpoint_algorithm_mismatch"
    else if not (is_audit_hash cp.event_hash)
    then Option.some "checkpoint_hash_invalid"
    else Option.none

-- The report before the checks.
abbrev pub initial_report : AuditChainCheckpoint → List AuditEvent → AuditIntegrity
initial_report cp events = record {
  valid = false;
  hash_algorithm = sha256_v1;
  event_count = length events;
  first_sequence = ℤ.pos 0;
  last_sequence = ℤ.pos 0;
  last_event_hash = "";
  checkpoint_sequence = cp.sequence;
  checkpoint_event_hash = cp.event_hash;
  failure_reason = "";
}

-- report.FirstSequence, LastSequence and LastEventHash at one event; `first` says `index == 0`.
abbrev pub advance : AuditIntegrity → Bool → AuditEvent → AuditIntegrity
advance report first event = record report {
  first_sequence = if first then event.sequence else report.first_sequence;
  last_sequence = event.sequence;
  last_event_hash = event.event_hash;
}

-- What the loop tests of one event's hash.
unfoldable pub hash_failure : AuditEvent → Result String → Option String
hash_failure event (err e) = Option.some "metadata_invalid"
hash_failure event (ok expected) =
    if not (event.event_hash == expected) || not (is_audit_hash event.event_hash)
    then Option.some "event_hash_mismatch"
    else Option.none

module _ (c : AuditCodec) where
  -- The reason for which the loop stops at an event.
  unfoldable pub event_failure : ℤ → String → AuditEvent → Option String
  unfolding hash_failure
  event_failure expected_sequence previous_hash event =
      if not (eq_int64 event.sequence expected_sequence)
      then Option.some "sequence_gap"
      else if not (event.hash_algorithm == sha256_v1)
      then Option.some "hash_algorithm_mismatch"
      else if not (event.previous_event_hash == previous_hash)
      then Option.some "previous_hash_mismatch"
      else hash_failure event (audit_event_hash c previous_hash event)

  -- `for index, event := range events`, and `report.Valid = true` behind it.
  unfoldable pub verify_loop : Bool → AuditIntegrity → ℤ → String → List AuditEvent → AuditIntegrity
  verify_loop first report expected_sequence previous_hash [] = record report { valid = true }
  verify_loop first report expected_sequence previous_hash (event ∷ events) =
      let rest =
        verify_loop false (advance report first event) (increment expected_sequence)
          event.event_hash events in
      elim (event_failure expected_sequence previous_hash event) [
        | Option.some reason ↦ failed report reason
        | Option.none ↦ rest
      ]

  -- With no event the last sequence and hash are the checkpoint's.
  abbrev pub latest_of_checkpoint :
      AuditIntegrity → AuditChainCheckpoint → List AuditEvent → AuditIntegrity
  latest_of_checkpoint report cp [] = record report {
    last_sequence = cp.sequence;
    last_event_hash = cp.event_hash;
  }
  latest_of_checkpoint report cp (event ∷ events) = report

  unfoldable pub verify_audit_events : List AuditEvent → AuditChainCheckpoint → AuditIntegrity
  verify_audit_events events cp = elim (checkpoint_failure cp) [
    | Option.some reason ↦ failed (initial_report cp events) reason
    | Option.none ↦
        verify_loop true (latest_of_checkpoint (initial_report cp events) cp events)
          (increment cp.sequence) cp.event_hash events
  ]

  abbrev pub checkpoint_of_state : AuditChainState → AuditChainCheckpoint
  checkpoint_of_state state = record {
    sequence = state.checkpoint_sequence;
    hash_algorithm = state.hash_algorithm;
    event_hash = state.checkpoint_event_hash;
    created_at = 0;
  }

  unfoldable pub verify_audit_state : List AuditEvent → AuditChainState → AuditIntegrity
  verify_audit_state events state =
      let report = verify_audit_events events (checkpoint_of_state state) in
      if not report.valid
      then report
      else if not (state.hash_algorithm == sha256_v1)
      then record report { valid = false; failure_reason = "state_algorithm_mismatch" }
      else if not (eq_int64 state.latest_sequence report.last_sequence)
          || not (state.latest_event_hash == report.last_event_hash)
      then record report { valid = false; failure_reason = "state_latest_mismatch" }
      else report

-- auditIntegrityError: `err` carries the reason, `ok` is nil.
unfoldable pub audit_integrity_error : AuditIntegrity → Result (Unit {0})
audit_integrity_error report =
    if report.valid then ok tt else err (Error.audit_integrity report.failure_reason)
