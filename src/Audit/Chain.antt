-- ===== src/Audit/Chain.antt =====
-- What the verification of audit_hash.go decides: an inductive description of an unbroken chain, in
-- which no loop, report or failure reason occurs.
use ano_pki_community.Common.{
  String, ◌≡◌, refl, ◌∙◌, ◌↔◌, ◌⊎◌, inl, inr, Bool, true, false, Option, List, [], ◌∷◌, arith, ℤ,
  Result, ok, err, eq_int64_iff, increment, is_negative, is_zero, eq_iff, Option-cases,
}
use ano_pki_community.Domain.{AuditEvent, AuditChainCheckpoint, AuditIntegrity}
use ano_pki_community.Audit.Hex.{is_audit_hash}
use ano_pki_community.Audit.Hash.{AuditCodec, sha256_v1, audit_event_hash}
use ano_pki_community.Audit.Verify.{
  AuditChainState, checkpoint_failure, initial_report, advance, hash_failure, event_failure,
  verify_loop, latest_of_checkpoint, verify_audit_events, checkpoint_of_state, verify_audit_state,
}

-- An event in its place: numbered as expected, over the hash before it, with its own right hash.
pub record IsLinked (c : AuditCodec) (expected : ℤ) (previous : String) (e : AuditEvent)
    : Type 0 where
  pub numbered : e.sequence ≡ expected
  pub algorithm : e.hash_algorithm ≡ sha256_v1
  pub follows : e.previous_event_hash ≡ previous
  pub hashed : audit_event_hash c previous e ≡ ok e.event_hash
  pub well_formed : is_audit_hash e.event_hash ≡ true

module _ (c : AuditCodec) where
  abbrev pub IsChained : ℤ → String → List AuditEvent → Type 0
  IsChained expected previous [] = Unit {0}
  IsChained expected previous (e ∷ es) =
      IsLinked c expected previous e × IsChained (increment expected) e.event_hash es

-- The last sequence number and hash of a chain that starts behind a given one.
abbrev pub last_sequence : ℤ → List AuditEvent → ℤ
last_sequence s [] = s
last_sequence s (e ∷ es) = last_sequence e.sequence es

abbrev pub last_hash : String → List AuditEvent → String
last_hash h [] = h
last_hash h (e ∷ es) = last_hash e.event_hash es

-- A checkpoint from which a chain may go on.
abbrev pub IsCheckpoint : AuditChainCheckpoint → Type 0
IsCheckpoint cp =
    (is_negative cp.sequence ≡ false)
    × (((is_zero cp.sequence ≡ true)
          × (cp.event_hash ≡ "")
          × ((cp.hash_algorithm ≡ "") ⊎ (cp.hash_algorithm ≡ sha256_v1)))
        ⊎ ((is_zero cp.sequence ≡ false)
            × (cp.hash_algorithm ≡ sha256_v1)
            × (is_audit_hash cp.event_hash ≡ true)))

hash_failure-none :
    (e : AuditEvent) (r : Result String)
    → hash_failure e r ≡ Option.none
    → (r ≡ ok e.event_hash) × (is_audit_hash e.event_hash ≡ true)
unfolding hash_failure
hash_failure-none e (err x) p = cc
hash_failure-none e (ok h) p = ground (arith, eq_iff e.event_hash h)

hash_failure_ok :
    (e : AuditEvent) (r : Result String)
    → r ≡ ok e.event_hash
    → is_audit_hash e.event_hash ≡ true
    → hash_failure e r ≡ Option.none
unfolding hash_failure
hash_failure_ok e (err x) p w = cc
hash_failure_ok e (ok h) p w = ground (arith, eq_iff e.event_hash h)

module _ (c : AuditCodec) where
  event_failure-none :
      (s : ℤ) (h : String) (e : AuditEvent) → event_failure c s h e ≡ Option.none → IsLinked c s h e
  unfolding event_failure
  event_failure-none s h e p = ground (
    arith,
    eq_int64_iff e.sequence s,
    eq_iff e.hash_algorithm sha256_v1,
    eq_iff e.previous_event_hash h,
    hash_failure-none e (audit_event_hash c h e),
  )

  event_failure_of_IsLinked :
      (s : ℤ) (h : String) (e : AuditEvent) → IsLinked c s h e → event_failure c s h e ≡ Option.none
  unfolding event_failure
  event_failure_of_IsLinked s h e l =
      rw
        (
          (eq_int64_iff e.sequence s).1 l.numbered,
          (eq_iff e.hash_algorithm sha256_v1).1 l.algorithm,
          (eq_iff e.previous_event_hash h).1 l.follows,
        )
        (hash_failure_ok e (audit_event_hash c h e) l.hashed l.well_formed)

  verify_loop-IsChained :
      (first : Bool) (r : AuditIntegrity) (s : ℤ) (h : String) (es : List AuditEvent)
      → r.valid ≡ false
      → (verify_loop c first r s h es).valid ≡ true
      → IsChained c s h es
  unfolding verify_loop
  verify_loop-IsChained first r s h [] n p = tt
  verify_loop-IsChained first r s h (e ∷ es) n p = elim (Option-cases (event_failure c s h e)) [
    | inl q ↦ (
      event_failure-none s h e q,
      verify_loop-IsChained false (advance r first e) (increment s) e.event_hash es n
          (rw (q, verify_loop) at p),
    )
    | inr (reason, q) ↦ absurd (cc (n, rw (q, verify_loop) at p))
  ]

  -- The loop over an unbroken chain ends valid, with the chain's last number and hash.
  verify_loop_of_IsChained :
      (first : Bool) (r : AuditIntegrity) (s : ℤ) (h : String) (es : List AuditEvent)
      → IsChained c s h es
      → let out = verify_loop c first r s h es in
        (out.valid ≡ true)
        × (out.last_sequence ≡ last_sequence r.last_sequence es)
        × (out.last_event_hash ≡ last_hash r.last_event_hash es)
  unfolding verify_loop
  verify_loop_of_IsChained first r s h [] p = (refl, refl, refl)
  verify_loop_of_IsChained first r s h (e ∷ es) p =
      rw (event_failure_of_IsLinked s h e p.0, verify_loop)
        (verify_loop_of_IsChained false (advance r first e) (increment s) e.event_hash es p.1)

  verify_loop_of_checkpoint :
      (cp : AuditChainCheckpoint) (r : AuditIntegrity) (es : List AuditEvent)
      → IsChained c (increment cp.sequence) cp.event_hash es
      → let out =
          verify_loop c true
            (latest_of_checkpoint c r cp es)
            (increment cp.sequence)
            cp.event_hash
            es in
        (out.valid ≡ true)
        × (out.last_sequence ≡ last_sequence cp.sequence es)
        × (out.last_event_hash ≡ last_hash cp.event_hash es)
  verify_loop_of_checkpoint cp r [] p = verify_loop_of_IsChained true _ _ _ [] p
  verify_loop_of_checkpoint cp r (e ∷ es) p = verify_loop_of_IsChained true _ _ _ (e ∷ es) p

checkpoint_failure-none :
    (cp : AuditChainCheckpoint) → checkpoint_failure cp ≡ Option.none → IsCheckpoint cp
unfolding checkpoint_failure
checkpoint_failure-none cp p = ground (
  arith,
  eq_iff cp.event_hash "",
  eq_iff cp.hash_algorithm "",
  eq_iff cp.hash_algorithm sha256_v1,
)

checkpoint_failure_of_IsCheckpoint :
    (cp : AuditChainCheckpoint) → IsCheckpoint cp → checkpoint_failure cp ≡ Option.none
unfolding checkpoint_failure
checkpoint_failure_of_IsCheckpoint cp p = ground (
  arith,
  eq_iff cp.event_hash "",
  eq_iff cp.hash_algorithm "",
  eq_iff cp.hash_algorithm sha256_v1,
)

-- A log that nobody has tampered with: an unbroken chain from the checkpoint to the latest event.
pub record IsIntact (c : AuditCodec) (es : List AuditEvent) (state : AuditChainState) : Type 0 where
  pub algorithm : state.hash_algorithm ≡ sha256_v1
  pub from_checkpoint : IsCheckpoint (checkpoint_of_state c state)
  pub chained : IsChained c (increment state.checkpoint_sequence) state.checkpoint_event_hash es
  pub to_latest_sequence : state.latest_sequence ≡ last_sequence state.checkpoint_sequence es
  pub to_latest_hash : state.latest_event_hash ≡ last_hash state.checkpoint_event_hash es

module _ (c : AuditCodec) where
  verify_audit_events-parts :
      (es : List AuditEvent) (cp : AuditChainCheckpoint)
      → (verify_audit_events c es cp).valid ≡ true
      → IsCheckpoint cp × IsChained c (increment cp.sequence) cp.event_hash es
  unfolding verify_audit_events
  verify_audit_events-parts es cp p = elim (Option-cases (checkpoint_failure cp)) [
    | inl q ↦ (
      checkpoint_failure-none cp q,
      verify_loop-IsChained c true _ _ _ es (latest-valid es) (rw (q, verify_audit_events) at p),
    )
    | inr (reason, q) ↦ absurd (cc (rw (q, verify_audit_events) at p))
  ]
    where
      latest-valid :
          (fs : List AuditEvent)
          → (latest_of_checkpoint c (initial_report cp es) cp fs).valid ≡ false
      latest-valid [] = refl
      latest-valid (f ∷ fs) = refl

  verify_audit_events_of_parts :
      (es : List AuditEvent) (cp : AuditChainCheckpoint)
      → IsCheckpoint cp
      → IsChained c (increment cp.sequence) cp.event_hash es
      → let out = verify_audit_events c es cp in
        (out.valid ≡ true)
        × (out.last_sequence ≡ last_sequence cp.sequence es)
        × (out.last_event_hash ≡ last_hash cp.event_hash es)
  unfolding verify_audit_events
  verify_audit_events_of_parts es cp k p =
      rw (checkpoint_failure_of_IsCheckpoint cp k, verify_audit_events)
        (verify_loop_of_checkpoint c cp (initial_report cp es) es p)

  -- Over an intact log the report is valid and names the state's latest event.
  pub verify_audit_state_of_IsIntact :
      (es : List AuditEvent) (state : AuditChainState)
      → IsIntact c es state
      → let out = verify_audit_state c es state in
        (out.valid ≡ true)
        × (out.last_sequence ≡ state.latest_sequence)
        × (out.last_event_hash ≡ state.latest_event_hash)
  unfolding verify_audit_state
  verify_audit_state_of_IsIntact es state k = ground (
    arith,
    verify_audit_events_of_parts es (checkpoint_of_state c state) k.from_checkpoint k.chained,
    eq_iff state.hash_algorithm sha256_v1,
    eq_int64_iff state.latest_sequence
        (verify_audit_events c es (checkpoint_of_state c state)).last_sequence,
    eq_iff state.latest_event_hash
        (verify_audit_events c es (checkpoint_of_state c state)).last_event_hash,
  )

  verify_audit_state-parts :
      (es : List AuditEvent) (state : AuditChainState)
      → (verify_audit_state c es state).valid ≡ true
      → let out = verify_audit_events c es (checkpoint_of_state c state) in
        (out.valid ≡ true)
        × (state.hash_algorithm ≡ sha256_v1)
        × (state.latest_sequence ≡ out.last_sequence)
        × (state.latest_event_hash ≡ out.last_event_hash)
  unfolding verify_audit_state
  verify_audit_state-parts es state p = ground (
    arith,
    eq_iff state.hash_algorithm sha256_v1,
    eq_int64_iff state.latest_sequence
        (verify_audit_events c es (checkpoint_of_state c state)).last_sequence,
    eq_iff state.latest_event_hash
        (verify_audit_events c es (checkpoint_of_state c state)).last_event_hash,
  )

  verify_audit_state-IsIntact :
      (es : List AuditEvent) (state : AuditChainState)
      → (verify_audit_state c es state).valid ≡ true
      → IsIntact c es state
  verify_audit_state-IsIntact es state p =
      let parts = verify_audit_state-parts es state p in
      let (k, chain) = verify_audit_events-parts es (checkpoint_of_state c state) parts.0 in
      let values = verify_audit_events_of_parts es (checkpoint_of_state c state) k chain in
      record {
        algorithm = parts.1;
        from_checkpoint = k;
        chained = chain;
        to_latest_sequence = parts.2 ∙ values.1;
        to_latest_hash = parts.3 ∙ values.2;
      }

  -- The verification of a log, over any events and any chain state, reports it valid exactly when
  -- it is intact: every event is numbered one after the other from the checkpoint, names the hash
  -- before its own, holds its own hash over that and its payload, and the last one is the latest
  -- that the state names.
  pub verify_audit_state_iff :
      (es : List AuditEvent) (state : AuditChainState)
      → ((verify_audit_state c es state).valid ≡ true) ↔ IsIntact c es state
  verify_audit_state_iff es state =
      (verify_audit_state-IsIntact es state, λ k. (verify_audit_state_of_IsIntact es state k).0)
