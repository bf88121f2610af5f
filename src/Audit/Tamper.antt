-- ===== src/Audit/Tamper.antt =====
-- What the hash chain of audit_hash.go protects: the payload texts of all events behind the checkpoint.
use ano_pki_community.Common.{
  String, ◌≡◌, refl, ◌∙◌, sym, ap, subst, ◌⊎◌, inl, inr, ◌≢◌, true, List, [], ◌∷◌, arith, length, ℤ,
  ℕ, suc, ◌+◌, ◌≤◌, ok, increment, max_int64, increment-pos, Bool-cases, ◌==◌, eq_iff,
}
use mathlib.Core.List.{Mem, mem-cons_self, mem-cons_of_mem}
use Prim.Native.String.{◌++◌, count}
use text.Mathlib.TextLemmas.{append_inj}
use ano_pki_community.Domain.{AuditEvent}
use ano_pki_community.Audit.Hex.{count-is_audit_hash}
use ano_pki_community.Audit.Hash.{AuditCodec, hash_payload, audit_event_hash}
use ano_pki_community.Audit.Verify.{AuditChainState, verify_audit_state}
use ano_pki_community.Audit.Chain.{
  IsLinked, IsChained, IsIntact, last_sequence, last_hash, verify_audit_state_iff,
}

module _ (c : AuditCodec) where
  -- An event of each list for which two different texts, each the hash before it and its payload, have one
  -- digest.
  pub record Collision (es fs : List AuditEvent) : Type 0 where
    pub left : AuditEvent
    pub right : AuditEvent
    pub of_left : Mem left es
    pub of_right : Mem right fs
    pub left_payload : String
    pub right_payload : String
    pub left_hashed : hash_payload c left ≡ ok left_payload
    pub right_hashed : hash_payload c right ≡ ok right_payload
    pub differ :
        left.previous_event_hash ++ left_payload ≢ right.previous_event_hash ++ right_payload
    pub collide :
        c.sha256_hex (left.previous_event_hash ++ left_payload)
        ≡ c.sha256_hex (right.previous_event_hash ++ right_payload)

  Collision-cons :
      (e f : AuditEvent) (es fs : List AuditEvent) → Collision es fs → Collision (e ∷ es) (f ∷ fs)
  Collision-cons e f es fs k = record {
    left = k.left;
    right = k.right;
    of_left = mem-cons_of_mem e k.of_left;
    of_right = mem-cons_of_mem f k.of_right;
    left_payload = k.left_payload;
    right_payload = k.right_payload;
    left_hashed = k.left_hashed;
    right_hashed = k.right_hashed;
    differ = k.differ;
    collide = k.collide;
  }

  -- Two lists of events hash the same payloads, one for one: the texts that json.Marshal makes of their
  -- fields, with the metadata in canonical form.
  abbrev pub SamePayloads : List AuditEvent → List AuditEvent → Type 0
  SamePayloads [] [] = Unit {0}
  SamePayloads [] (f ∷ fs) = ⊥
  SamePayloads (e ∷ es) [] = ⊥
  SamePayloads (e ∷ es) (f ∷ fs) = (hash_payload c e ≡ hash_payload c f) × SamePayloads es fs

  hashed-parts :
      (h : String) (e : AuditEvent) (x : String)
      → audit_event_hash c h e ≡ ok x
      → (payload : String) × (hash_payload c e ≡ ok payload) × (c.sha256_hex (h ++ payload) ≡ x)
  unfolding audit_event_hash
  hashed-parts h e x p = ground arith

  equal_or_not : (s t : String) → (s ≡ t) ⊎ (s ≢ t)
  equal_or_not s t = elim (Bool-cases (s == t)) [
    | inl q ↦ inl ((eq_iff s t).0 q)
    | inr q ↦ inr (λ r. cc (q, (eq_iff s t).1 r))
  ]

  -- One step back along two chains: an equal hash comes from an equal hash before it and an equal
  -- payload.
  step_back :
      (s t : ℤ) (h k : String) (e f : AuditEvent) (es fs : List AuditEvent)
      → count h ≡ count k
      → IsLinked c s h e
      → IsLinked c t k f
      → e.event_hash ≡ f.event_hash
      → ((h ≡ k) × (hash_payload c e ≡ hash_payload c f)) ⊎ Collision (e ∷ es) (f ∷ fs)
  step_back s t h k e f es fs n l m p =
      let (x, xe, xh) = hashed-parts h e e.event_hash l.hashed in
      let (y, ye, yh) = hashed-parts k f f.event_hash m.hashed in
      let left = ap (λ z. z ++ x) l.follows in
      let right = ap (λ z. z ++ y) m.follows in
      elim (equal_or_not (h ++ x) (k ++ y)) [
        | inl q ↦ let (hk, xy) = append_inj q n in inl (hk, xe ∙ ap ok xy ∙ sym ye)
        | inr differ ↦ inr (record {
          left = e;
          right = f;
          of_left = mem-cons_self;
          of_right = mem-cons_self;
          left_payload = x;
          right_payload = y;
          left_hashed = xe;
          right_hashed = ye;
          differ = λ q. differ (sym left ∙ q ∙ right);
          collide = ap c.sha256_hex left ∙ xh ∙ p ∙ sym yh ∙ ap c.sha256_hex (sym right);
        })
      ]

  same_payloads :
      (s t : ℤ) (h k : String) (es fs : List AuditEvent)
      → count h ≡ count k
      → length es ≡ length fs
      → IsChained c s h es
      → IsChained c t k fs
      → last_hash h es ≡ last_hash k fs
      → ((h ≡ k) × SamePayloads es fs) ⊎ Collision es fs
  same_payloads s t h k [] [] n l p q e = inl (e, tt)
  same_payloads s t h k [] (f ∷ fs) n l p q e = absurd (omega arith)
  same_payloads s t h k (e ∷ es) [] n l p q r = absurd (omega arith)
  same_payloads s t h k (e ∷ es) (f ∷ fs) n l p q r =
      let digits =
        count-is_audit_hash e.event_hash p.0.well_formed
        ∙ sym (count-is_audit_hash f.event_hash q.0.well_formed) in
      elim (same_payloads (increment s) (increment t) e.event_hash f.event_hash es fs digits
        (omega arith) p.1 q.1 r) [
          | inl (eq, rest) ↦ elim (step_back s t h k e f es fs n p.0 q.0 eq) [
            | inl (hk, first) ↦ inl (hk, (first, rest))
            | inr clash ↦ inr clash
          ]
          | inr clash ↦ inr (Collision-cons e f es fs clash)
        ]

  last_sequence-pos :
      (n : ℕ) (h : String) (es : List AuditEvent)
      → n + length es ≤ max_int64
      → IsChained c (increment (ℤ.pos n)) h es
      → last_sequence (ℤ.pos n) es ≡ ℤ.pos (n + length es)
  last_sequence-pos n h [] b p = ap ℤ.pos (omega arith)
  last_sequence-pos n h (e ∷ es) b p =
      let s : increment (ℤ.pos n) ≡ ℤ.pos (suc n) =
        increment-pos n (omega arith) ∙ ap ℤ.pos (omega arith) in
      rw (p.0.numbered ∙ s) (
        last_sequence-pos (suc n) e.event_hash es (omega arith)
          (subst (λ k. IsChained c (increment k) e.event_hash es) s p.1)
        ∙ ap ℤ.pos (omega arith))

  latest_number :
      (n : ℕ) (es : List AuditEvent) (state : AuditChainState)
      → state.checkpoint_sequence ≡ ℤ.pos n
      → n + length es ≤ max_int64
      → IsIntact c es state
      → state.latest_sequence ≡ ℤ.pos (n + length es)
  latest_number n es state z b k =
      k.to_latest_sequence
      ∙ subst
          (λ s.
            IsChained c (increment s) state.checkpoint_event_hash es
            → last_sequence s es ≡ ℤ.pos (n + length es))
          (sym z) (last_sequence-pos n state.checkpoint_event_hash es b) k.chained

  same_length :
      (n : ℕ) (es fs : List AuditEvent) (state : AuditChainState)
      → state.checkpoint_sequence ≡ ℤ.pos n
      → n + length es ≤ max_int64
      → n + length fs ≤ max_int64
      → IsIntact c es state
      → IsIntact c fs state
      → length es ≡ length fs
  same_length n es fs state z b d k m =
      ground (arith, latest_number n es state z b k, latest_number n fs state z d m)

  -- Tamper evidence. Two lists of events that both verify against one chain state, with numbers in
  -- the int64 range, are equally long and hash the same payload texts, event by event, or they hold
  -- an event each whose hashed texts differ and have one SHA-256 digest. What the payload text does not
  -- show, as the spelling of metadata that is canonically the same, may differ.
  pub tamper_evident :
      (n : ℕ) (es fs : List AuditEvent) (state : AuditChainState)
      → state.checkpoint_sequence ≡ ℤ.pos n
      → n + length es ≤ max_int64
      → n + length fs ≤ max_int64
      → (verify_audit_state c es state).valid ≡ true
      → (verify_audit_state c fs state).valid ≡ true
      → SamePayloads es fs ⊎ Collision es fs
  tamper_evident n es fs state z b d v w =
      let k = (verify_audit_state_iff c es state).0 v in
      let m = (verify_audit_state_iff c fs state).0 w in
      elim (same_payloads _ _ _ _ es fs refl (same_length n es fs state z b d k m) k.chained
        m.chained (sym k.to_latest_hash ∙ m.to_latest_hash)) [
          | inl (_, same) ↦ inl same
          | inr clash ↦ inr clash
        ]
