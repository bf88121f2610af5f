-- ===== src/Audit/Prune.antt =====
-- What pruneMemoryAuditEvents and auditRetentionPrefixLength of memory.go promise.
use ano_pki_community.Common.{
  drop, String, ◌≡◌, refl, ◌∙◌, sym, ap, subst, ◌⊎◌, inl, inr, Bool, true, false, none, some, List,
  [], ◌∷◌, ◌++◌, arith, length, length-append, ℤ, ℕ, suc, ◌+◌, ◌<◌, ◌≤◌, Result, ok, err, Error,
  increment, max_int64, increment-pos, Bool-cases, Option-cases, Time, before,
}
use ano_pki_community.Domain.{AuditEvent}
use ano_pki_community.Audit.Hex.{is_audit_hash}
use ano_pki_community.Audit.Hash.{AuditCodec}
use ano_pki_community.Audit.Verify.{AuditChainState, audit_integrity_error}
use ano_pki_community.Audit.Memory.{
  AuditLog, retention_loop, audit_retention_prefix_length, last_deleted, pruned, after_prune,
  prune_prefix, prune_memory_audit_events,
}
use ano_pki_community.Audit.Chain.{
  IsChained, IsIntact, last_sequence, last_hash, verify_audit_state_of_IsIntact,
}

-- All events of a list are before the cutoff, or none is.
abbrev pub AllBefore : Time → List AuditEvent → Type 0
AllBefore cutoff [] = Unit {0}
AllBefore cutoff (e ∷ es) = (e.created_at < cutoff) × AllBefore cutoff es

abbrev pub NoneBefore : Time → List AuditEvent → Type 0
NoneBefore cutoff [] = Unit {0}
NoneBefore cutoff (e ∷ es) = (cutoff ≤ e.created_at) × NoneBefore cutoff es

-- The events before the cutoff, which stand in front, and the others.
pub record Split (cutoff : Time) (es : List AuditEvent) : Type 0 where
  pub deleted : List AuditEvent
  pub kept : List AuditEvent
  pub parts : es ≡ deleted ++ kept
  pub older : AllBefore cutoff deleted
  pub newer : NoneBefore cutoff kept

retained_all :
    (cutoff : Time) (k n : ℕ) (es : List AuditEvent)
    → retention_loop cutoff k true es ≡ some n
    → NoneBefore cutoff es × (n ≡ k)
unfolding retention_loop
retained_all cutoff k n [] p = ground arith
retained_all cutoff k n (e ∷ es) p = ground (arith, retained_all cutoff k n es)

retention_loop-Split :
    (cutoff : Time) (k n : ℕ) (es : List AuditEvent)
    → retention_loop cutoff k false es ≡ some n
    → (s : Split cutoff es) × (n ≡ k + length s.deleted)
unfolding retention_loop
retention_loop-Split cutoff k n [] p =
    (record { deleted = []; kept = []; parts = refl; older = tt; newer = tt }, ground arith)
retention_loop-Split cutoff k n (e ∷ es) p = elim (Bool-cases (before e.created_at cutoff)) [
  | inl old ↦
      let (s, q) = retention_loop-Split cutoff (k + 1) n es (rw (old, retention_loop) at p) in
      (
        record {
          deleted = e ∷ s.deleted;
          kept = s.kept;
          parts = ap (λ l. e ∷ l) s.parts;
          older = (ground arith, s.older);
          newer = s.newer;
        },
        omega arith,
      )
  | inr new ↦
      let (all, q) = retained_all cutoff k n es (rw (new, retention_loop) at p) in
      (
        record {
          deleted = [];
          kept = e ∷ es;
          parts = refl;
          older = tt;
          newer = (ground arith, all);
        },
        omega arith,
      )
]

retained_of_NoneBefore :
    (cutoff : Time) (k : ℕ) (seen : Bool) (es : List AuditEvent)
    → NoneBefore cutoff es
    → retention_loop cutoff k seen es ≡ some k
unfolding retention_loop
retained_of_NoneBefore cutoff k seen [] p = refl
retained_of_NoneBefore cutoff k seen (e ∷ es) p =
    ground (arith, retained_of_NoneBefore cutoff k true es p.1)

retention_of_parts :
    (cutoff : Time) (k : ℕ) (deleted kept : List AuditEvent)
    → AllBefore cutoff deleted
    → NoneBefore cutoff kept
    → retention_loop cutoff k false (deleted ++ kept) ≡ some (k + length deleted)
unfolding retention_loop
retention_of_parts cutoff k [] kept older newer =
    ground (arith, retained_of_NoneBefore cutoff k false kept newer)
retention_of_parts cutoff k (d ∷ ds) kept older newer =
    ground (arith, retention_of_parts cutoff (k + 1) ds kept older.1 newer)

no_Split :
    (cutoff : Time) (es : List AuditEvent)
    → retention_loop cutoff 0 false es ≡ none
    → ¬ Split cutoff es
no_Split cutoff es p s = cc (
  p,
  ap (retention_loop cutoff 0 false) s.parts,
  retention_of_parts cutoff 0 s.deleted s.kept s.older s.newer,
)

-- The last event of a list that starts with `d`.
abbrev last_of : AuditEvent → List AuditEvent → AuditEvent
last_of d [] = d
last_of d (x ∷ xs) = last_of x xs

last_deleted-append :
    (d : AuditEvent) (ds kept : List AuditEvent)
    → last_deleted d (length ds) (ds ++ kept) ≡ last_of d ds
last_deleted-append d [] kept = refl
last_deleted-append d (x ∷ ds) kept = last_deleted-append x ds kept

drop-append : (ds kept : List AuditEvent) → drop (length ds) (ds ++ kept) ≡ kept
drop-append [] kept = refl
drop-append (x ∷ ds) kept = drop-append ds kept

next_number : (n : ℕ) → n < max_int64 → increment (ℤ.pos n) ≡ ℤ.pos (suc n)
next_number n b = increment-pos n b ∙ ap ℤ.pos (omega arith)

module _ (c : AuditCodec) where
  -- A chain goes on from each of its events.
  record GoesOn (n : ℕ) (h : String) (d : AuditEvent) (ds kept : List AuditEvent) : Type 0 where
    number : ℕ
    numbered : (last_of d ds).sequence ≡ ℤ.pos (suc number)
    well_formed : is_audit_hash (last_of d ds).event_hash ≡ true
    chained : IsChained c (increment (last_of d ds).sequence) (last_of d ds).event_hash kept
    same_sequence :
        last_sequence (ℤ.pos n) (d ∷ (ds ++ kept)) ≡ last_sequence (last_of d ds).sequence kept
    same_hash : last_hash h (d ∷ (ds ++ kept)) ≡ last_hash (last_of d ds).event_hash kept

  goes_on :
      (n : ℕ) (h : String) (d : AuditEvent) (ds kept : List AuditEvent)
      → n + length ds < max_int64
      → IsChained c (increment (ℤ.pos n)) h (d ∷ (ds ++ kept))
      → GoesOn n h d ds kept
  goes_on n h d [] kept b p = record {
    number = n;
    numbered = p.0.numbered ∙ next_number n (omega arith);
    well_formed = p.0.well_formed;
    chained = subst (λ k. IsChained c (increment k) d.event_hash kept) (sym p.0.numbered) p.1;
    same_sequence = refl;
    same_hash = refl;
  }
  goes_on n h d (x ∷ ds) kept b p =
      let chain =
        subst (λ k. IsChained c (increment k) d.event_hash (x ∷ (ds ++ kept)))
          (next_number n (omega arith)) p.1 in
      let rest = goes_on (suc n) d.event_hash x ds kept (omega arith) chain in
      record {
        number = rest.number;
        numbered = rest.numbered;
        well_formed = rest.well_formed;
        chained = rest.chained;
        same_sequence = rest.same_sequence;
        same_hash = rest.same_hash;
      }

  pruned-IsIntact :
      (log : AuditLog) (n : ℕ) (d : AuditEvent) (ds kept : List AuditEvent)
      → GoesOn n log.state.checkpoint_event_hash d ds kept
      → log.state.checkpoint_sequence ≡ ℤ.pos n
      → IsIntact c (d ∷ (ds ++ kept)) log.state
      → let log' = pruned c log (last_of d ds) kept in IsIntact c log'.events log'.state
  pruned-IsIntact log n d ds kept g z k = record {
    algorithm = refl;
    from_checkpoint = ground (arith, g.numbered, g.well_formed);
    chained = g.chained;
    to_latest_sequence = k.to_latest_sequence ∙ g.same_sequence;
    to_latest_hash = k.to_latest_hash ∙ g.same_hash;
  }

  after_prune_lem :
      (m : ℕ) (log : AuditLog) → IsIntact c log.events log.state → after_prune c m log ≡ (ok m, log)
  unfolding after_prune
  after_prune_lem m log k =
      rw ((verify_audit_state_of_IsIntact c log.events log.state k).0, after_prune)

  -- The outcome of a deletion: `n` events are gone, `kept` is left, and the log is intact.
  abbrev pub Deleted : ℕ → List AuditEvent → Result ℕ × AuditLog → Type 0
  Deleted m kept out = (out.0 ≡ ok m) × (out.1.events ≡ kept) × IsIntact c out.1.events out.1.state

  prune_prefix-Deleted :
      (state : AuditChainState) (n : ℕ) (deleted kept : List AuditEvent)
      → let log : AuditLog = record { events = deleted ++ kept; state = state } in
        IsIntact c (deleted ++ kept) state
        → state.checkpoint_sequence ≡ ℤ.pos n
        → n + length (deleted ++ kept) ≤ max_int64
        → Deleted
            (length deleted)
            kept
            (prune_prefix c log (some (length deleted)) (deleted ++ kept))
  unfolding prune_prefix
  prune_prefix-Deleted state n [] kept k z b = (refl, refl, k)
  prune_prefix-Deleted state n (d ∷ ds) kept k z b =
      let log : AuditLog = record { events = (d ∷ ds) ++ kept; state = state } in
      let g =
        goes_on n state.checkpoint_event_hash d ds kept (omega (arith, length-append ds kept)) (
          subst (λ s. IsChained c (increment s) state.checkpoint_event_hash (d ∷ (ds ++ kept))) z
            k.chained) in
      let k' = pruned-IsIntact log n d ds kept g z k in
      rw
        (
          last_deleted-append d ds kept,
          drop-append ds kept,
          after_prune_lem (suc (length ds)) (pruned c log (last_of d ds) kept) k',
        )
        (refl, refl, k')

  prune_of_valid :
      (log : AuditLog) (cutoff : Time)
      → IsIntact c log.events log.state
      → prune_memory_audit_events c log cutoff
        ≡ prune_prefix c log (audit_retention_prefix_length log.events cutoff) log.events
  unfolding prune_memory_audit_events audit_integrity_error
  prune_of_valid log cutoff k =
      rw ((verify_audit_state_of_IsIntact c log.events log.state k).0, prune_memory_audit_events)

  prune_Split :
      (log : AuditLog) (n : ℕ) (deleted kept : List AuditEvent)
      → log.events ≡ deleted ++ kept
      → IsIntact c log.events log.state
      → log.state.checkpoint_sequence ≡ ℤ.pos n
      → n + length log.events ≤ max_int64
      → Deleted (length deleted) kept (prune_prefix c log (some (length deleted)) log.events)
  prune_Split log n deleted kept e k z b =
      subst
        (λ es.
          Deleted (length deleted) kept
            (prune_prefix c (record { events = es; state = log.state }) (some (length deleted)) es))
        (sym e)
        (prune_prefix-Deleted log.state n deleted kept (subst (λ es. IsIntact c es log.state) e k) z
          (subst (λ es. n + length es ≤ max_int64) e b))

  -- Retention over an intact log whose numbers cannot run past the int64 range: if the events before
  -- the cutoff stand in front of all others, exactly those are deleted, their number is returned, the
  -- others are kept in order, and the log is intact from its new checkpoint. If an older event stands
  -- behind a newer one, the call fails with `retention_cutoff_non_prefix` and changes nothing.
  pub prune_lem :
      (log : AuditLog) (cutoff : Time) (n : ℕ)
      → IsIntact c log.events log.state
      → log.state.checkpoint_sequence ≡ ℤ.pos n
      → n + length log.events ≤ max_int64
      → let out = prune_memory_audit_events c log cutoff in
        ((s : Split cutoff log.events) × Deleted (length s.deleted) s.kept out)
        ⊎ ((¬ Split cutoff log.events)
            × (out ≡ (err (Error.audit_integrity "retention_cutoff_non_prefix"), log)))
  unfolding audit_retention_prefix_length prune_prefix
  prune_lem log cutoff n k z b =
      rw (prune_of_valid log cutoff k)
        (elim (Option-cases (retention_loop cutoff 0 false log.events)) [
          | inl e ↦ inr (no_Split cutoff log.events e, rw (e, audit_retention_prefix_length))
          | inr (m, e) ↦
              let (s, q) = retention_loop-Split cutoff 0 m log.events e in
              let count : m ≡ length s.deleted = omega arith in
              inl (
                s,
                rw (e, count, audit_retention_prefix_length)
                    (prune_Split log n s.deleted s.kept s.parts k z b),
              )
        ])
