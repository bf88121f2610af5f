-- ===== src/Lifecycle/World/Leaves.antt =====
-- What a run leaves in the store, whether it succeeds or fails: the rules by which the operations of a
-- service keep an invariant of the store.
use ano_pki_community.Common.{
  ◌≡◌, refl, Bool, true, false, Result, ok, err, Error, Result-cases, inl, inr,
}
use ano_pki_community.Store.State.{MemoryStore, within_tx, written}
use ano_pki_community.Lifecycle.World.{World, Op, bound, guard, attempt, repo, in_tx, ◌>>◌}
use ano_pki_community.Lifecycle.World.Ensures.{Ensures}

module _ (P : MemoryStore → Type 0) where
  unfoldable pub Leaves : {A : Type 0} → Result A × World → Type 0
  Leaves (r, w) = P w.store

  -- A call that only reads.
  pub Leaves-read : {A : Type 0} (r : Result A) (w : World) → P w.store → Leaves (r, w)
  unfolding Leaves
  Leaves-read r w h = h

  pub Leaves-guard : (bad : Bool) (x : Error) (w : World) → P w.store → Leaves (guard bad x w)
  unfolding Leaves guard
  Leaves-guard true x w h = h
  Leaves-guard false x w h = h

  -- A guard, whose condition is known to fail in what follows.
  pub Leaves-past :
      {B : Type 0} (bad : Bool) (x : Error) (k : Op B) (w : World)
      → P w.store
      → (bad ≡ false → Leaves (k w))
      → Leaves ((guard bad x >> k) w)
  unfolding Leaves guard bound
  Leaves-past true x k w h g = h
  Leaves-past false x k w h g = g refl

  pub Leaves-then :
      {A B : Type 0} (f : A → Op B) (r : Result A × World)
      → Leaves r
      → ((a : A) (v : World) → P v.store → Leaves (f a v))
      → Leaves (bound f r)
  unfolding Leaves bound
  Leaves-then f (ok a, v) h g = g a v h
  Leaves-then f (err x, v) h g = h

  -- The same, where more is known of a success.
  pub Leaves-having :
      {A B : Type 0} (Q : A → World → Type 0) (f : A → Op B) (r : Result A × World)
      → Leaves r
      → Ensures Q r
      → ((a : A) (v : World) → P v.store → Q a v → Leaves (f a v))
      → Leaves (bound f r)
  unfolding Leaves Ensures bound
  Leaves-having Q f (ok a, v) h q g = g a v h q
  Leaves-having Q f (err x, v) h q g = h

  -- A write of one map, and a call whose error the caller looks at.
  pub Leaves-written :
      {V : Type 0} (put : V → MemoryStore) (r : Result V) (w : World)
      → P w.store
      → ((m : V) → r ≡ ok m → P (put m))
      → Leaves (repo (λ s. written s put r) w)
  unfolding Leaves written
  Leaves-written put (ok m) w h g = g m refl
  Leaves-written put (err x) w h g = h

  pub Leaves-attempt : {A : Type 0} (f : Op A) (w : World) → Leaves (f w) → Leaves (attempt f w)
  unfolding Leaves
  Leaves-attempt f w h = h

  -- A transaction that fails leaves the store as it was.
  pub Leaves-in_tx :
      {A : Type 0} (f : Op A) (w : World)
      → P w.store
      → Ensures (λ a w'. P w'.store) (f w)
      → Leaves (in_tx f w)
  unfolding Leaves Ensures in_tx within_tx
  Leaves-in_tx f w p h = elim (Result-cases (f w).0) [
    | inl (a, e) ↦ rw e (rw e at h)
    | inr (x, e) ↦ rw e p
  ]
