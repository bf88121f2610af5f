-- ===== src/Audit/Append.antt =====
-- What appendMemoryAuditEvent of memory.go promises.
use ano_pki_community.Common.{
  String, ◌≡◌, refl, sym, ap, subst, inl, inr, true, false, List, [], ◌∷◌, ◌++◌ as ◌+++◌, arith, ℤ,
  ℕ, ◌+◌, ◌<◌, ok, err, Result-cases, Error, increment, max_int64, increment-pos, Bool-cases,
}
use Prim.Native.String.{◌++◌}
use ano_pki_community.Domain.{AuditEvent}
use ano_pki_community.Audit.Hex.{is_audit_hash}
use ano_pki_community.Audit.Hash.{
  AuditCodec, HexDigests, numbered, hash_payload, audit_event_hash, with_audit_event_hash,
}
use ano_pki_community.Audit.Verify.{audit_integrity_error}
use ano_pki_community.Audit.Memory.{AuditLog, report_of, appended, append_memory_audit_event}
use ano_pki_community.Audit.Chain.{
  IsLinked, IsChained, IsIntact, last_sequence, last_hash, verify_audit_state_of_IsIntact,
  verify_audit_state_iff,
}

module _ (c : AuditCodec) where
  with_audit_event_hash-parts :
      (s : ℤ) (h : String) (e prepared : AuditEvent)
      → with_audit_event_hash c s h e ≡ ok prepared
      → (x : String) × (audit_event_hash c h (numbered s h e) ≡ ok x)
        × (prepared ≡ record (numbered s h e) { event_hash = x })
  unfolding with_audit_event_hash
  with_audit_event_hash-parts s h e prepared p = ground arith

  audit_event_hash-digest :
      (digests : HexDigests c) (h : String) (e : AuditEvent) (x : String)
      → audit_event_hash c h e ≡ ok x
      → is_audit_hash x ≡ true
  unfolding audit_event_hash
  audit_event_hash-digest digests h e x p = elim (Result-cases (hash_payload c e)) [
    | inl (payload, q) ↦ cc (digests (h ++ payload), rw (q, audit_event_hash) at p)
    | inr (reason, q) ↦ cc (rw (q, audit_event_hash) at p)
  ]

  -- A prepared event is linked where it was prepared for.
  with_audit_event_hash-IsLinked :
      (digests : HexDigests c) (s : ℤ) (h : String) (e prepared : AuditEvent)
      → with_audit_event_hash c s h e ≡ ok prepared
      → IsLinked c s h prepared
  unfolding audit_event_hash hash_payload
  with_audit_event_hash-IsLinked digests s h e prepared p =
      let (x, q, r) = with_audit_event_hash-parts s h e prepared p in
      subst (IsLinked c s h) (sym r) (record {
        numbered = refl;
        algorithm = refl;
        follows = refl;
        hashed = q;
        well_formed = audit_event_hash-digest digests h (numbered s h e) x q;
      })

  IsChained-append :
      (s : ℤ) (h : String) (es : List AuditEvent) (e : AuditEvent)
      → IsChained c (increment s) h es
      → IsLinked c (increment (last_sequence s es)) (last_hash h es) e
      → IsChained c (increment s) h (es +++ e ∷ [])
  IsChained-append s h [] e p l = (l, tt)
  IsChained-append s h (f ∷ es) e p l = (
    p.0,
    subst (λ k. IsChained c (increment k) f.event_hash (es +++ e ∷ [])) p.0.numbered
        (IsChained-append f.sequence f.event_hash es e
          (subst (λ k. IsChained c (increment k) f.event_hash es) (sym p.0.numbered) p.1) l),
  )

last_sequence-append :
    (s : ℤ) (es : List AuditEvent) (e : AuditEvent) → last_sequence s (es +++ e ∷ []) ≡ e.sequence
last_sequence-append s [] e = refl
last_sequence-append s (f ∷ es) e = last_sequence-append f.sequence es e

last_hash-append :
    (h : String) (es : List AuditEvent) (e : AuditEvent)
    → last_hash h (es +++ e ∷ []) ≡ e.event_hash
last_hash-append h [] e = refl
last_hash-append h (f ∷ es) e = last_hash-append f.event_hash es e

module _ (c : AuditCodec) where
  appended-IsIntact :
      (log : AuditLog) (e : AuditEvent)
      → IsIntact c log.events log.state
      → IsLinked c (increment log.state.latest_sequence) log.state.latest_event_hash e
      → IsIntact c (appended c log e).events (appended c log e).state
  appended-IsIntact log e k l = record {
    algorithm = refl;
    from_checkpoint = ground arith;
    chained =
        IsChained-append c _ _ log.events e k.chained
          (rw (← k.to_latest_sequence, ← k.to_latest_hash) l);
    to_latest_sequence = sym (last_sequence-append _ log.events e);
    to_latest_hash = sym (last_hash-append _ log.events e);
  }

  prepared_of_payload :
      (n : ℕ) (h : String) (e : AuditEvent) (payload : String)
      → hash_payload c (numbered (ℤ.pos (n + 1)) h e) ≡ ok payload
      → with_audit_event_hash c (ℤ.pos (n + 1)) h e
        ≡ ok (record (numbered (ℤ.pos (n + 1)) h e) { event_hash = c.sha256_hex (h ++ payload) })
  unfolding with_audit_event_hash audit_event_hash
  prepared_of_payload n h e payload p = ground arith

  -- What a successful preparation leads to: the event is appended, and the log is intact again.
  append_of_prepared :
      (digests : HexDigests c) (log : AuditLog) (e prepared : AuditEvent)
      → IsIntact c log.events log.state
      → with_audit_event_hash c (increment log.state.latest_sequence) log.state.latest_event_hash e
        ≡ ok prepared
      → (append_memory_audit_event c log e ≡ (ok tt, appended c log prepared))
        × IsIntact c (appended c log prepared).events (appended c log prepared).state
  unfolding append_memory_audit_event audit_integrity_error
  append_of_prepared digests log e prepared k p =
      let now_valid = verify_audit_state_of_IsIntact c log.events log.state k in
      let linked = with_audit_event_hash-IsLinked c digests _ _ e prepared p in
      let k' = appended-IsIntact log prepared k linked in
      let then_valid =
        verify_audit_state_of_IsIntact c (appended c log prepared).events
          (appended c log prepared).state k' in
      (rw (now_valid.0, now_valid.1, now_valid.2, p, then_valid.0, append_memory_audit_event), k')

  append_of_refused :
      (log : AuditLog) (e : AuditEvent) (x : Error)
      → IsIntact c log.events log.state
      → with_audit_event_hash c (increment log.state.latest_sequence) log.state.latest_event_hash e
        ≡ err x
      → append_memory_audit_event c log e ≡ (err x, log)
  unfolding append_memory_audit_event audit_integrity_error
  append_of_refused log e x k p =
      let now_valid = verify_audit_state_of_IsIntact c log.events log.state k in
      rw (now_valid.0, now_valid.1, now_valid.2, p, append_memory_audit_event)

  append_of_broken :
      (log : AuditLog) (e : AuditEvent)
      → (report_of c log).valid ≡ false
      → append_memory_audit_event c log e
        ≡ (err (Error.audit_integrity (report_of c log).failure_reason), log)
  unfolding append_memory_audit_event audit_integrity_error
  append_of_broken log e p = rw (p, append_memory_audit_event)

  -- Appending an event to an intact log leaves it intact, whatever comes of the call.
  pub append-IsIntact :
      (digests : HexDigests c) (log : AuditLog) (e : AuditEvent)
      → IsIntact c log.events log.state
      → let log' = (append_memory_audit_event c log e).1 in IsIntact c log'.events log'.state
  append-IsIntact digests log e k =
      elim (Result-cases (
        with_audit_event_hash c (increment log.state.latest_sequence) log.state.latest_event_hash
          e)) [
            | inl (prepared, p) ↦
                let (done, k') = append_of_prepared digests log e prepared k p in rw done k'
            | inr (x, p) ↦ rw (append_of_refused log e x k p) k
          ]

  -- An append that reports an error has not touched the log, intact or not.
  pub append_error_unchanged :
      (digests : HexDigests c) (log : AuditLog) (e : AuditEvent) (x : Error)
      → (append_memory_audit_event c log e).0 ≡ err x
      → (append_memory_audit_event c log e).1 ≡ log
  append_error_unchanged digests log e x h = elim (Bool-cases (report_of c log).valid) [
    | inl valid ↦
        let k = (verify_audit_state_iff c log.events log.state).0 valid in
        elim (Result-cases (
          with_audit_event_hash c (increment log.state.latest_sequence) log.state.latest_event_hash
            e)) [
              | inl (prepared, p) ↦ cc (h, (append_of_prepared digests log e prepared k p).0)
              | inr (y, p) ↦ ap (λ r. r.1) (append_of_refused log e y k p)
            ]
    | inr broken ↦ ap (λ r. r.1) (append_of_broken log e broken)
  ]

  -- An event whose metadata is one JSON value is appended to every intact log that has a sequence
  -- number left: as the next number, over the latest hash, with the digest of that hash followed by
  -- the event's payload. The log is intact with it.
  pub append_lem :
      (digests : HexDigests c) (log : AuditLog) (e : AuditEvent) (n : ℕ) (payload : String)
      → IsIntact c log.events log.state
      → log.state.latest_sequence ≡ ℤ.pos n
      → n < max_int64
      → let next = numbered (ℤ.pos (n + 1)) log.state.latest_event_hash e in
        hash_payload c next ≡ ok payload
        → let prepared = record next {
          event_hash = c.sha256_hex (log.state.latest_event_hash ++ payload);
        } in
          (append_memory_audit_event c log e ≡ (ok tt, appended c log prepared))
          × IsIntact c (appended c log prepared).events (appended c log prepared).state
  append_lem digests log e n payload k s b p =
      append_of_prepared digests log e _ k
        (rw (s, increment-pos n b) (prepared_of_payload n _ e payload p))
