-- ===== src/Lifecycle/World/Ensures.antt =====
-- What a run of a service operation ensures of a success: the rules for the operations of World. The
-- operation reads as in the code, and each step gives its condition to what follows it.
use ano_pki_community.Common.{
  ◌≡◌, refl, subst, Bool, true, false, Option, none, some, inl, inr, Result, ok, err, Error,
  or_fail, Result-cases,
}
use ano_pki_community.Store.State.{MemoryStore, within_tx, written}
use ano_pki_community.Lifecycle.World.{World, Op, bound, guard, repo, in_tx, ◌>>◌}

-- The postcondition holds of what the run returned and of the world behind it, unless it failed.
unfoldable pub Ensures : {A : Type 0} → (A → World → Type 0) → Result A × World → Type 0
Ensures Q (ok a, w) = Q a w
Ensures Q (err x, w) = Unit {0}

module _ {A : Type 0} where
  pub Ensures-weaken :
      (P Q : A → World → Type 0) (r : Result A × World)
      → ((a : A) (w : World) → P a w → Q a w)
      → Ensures P r
      → Ensures Q r
  unfolding Ensures
  Ensures-weaken P Q (ok a, w) f h = f a w h
  Ensures-weaken P Q (err x, w) f h = tt

  -- What holds of the world behind a run, whatever it returns.
  pub Ensures-world :
      (Q : A → World → Type 0) (r : Result A × World) → ((a : A) → Q a r.1) → Ensures Q r
  unfolding Ensures
  Ensures-world Q (ok a, w) h = h a
  Ensures-world Q (err x, w) h = tt

  pub Ensures-return : (Q : A → World → Type 0) (a : A) (w : World) → Q a w → Ensures Q (ok a, w)
  unfolding Ensures
  Ensures-return Q a w h = h

  pub Ensures-fail : (Q : A → World → Type 0) (x : Error) (w : World) → Ensures Q (err x, w)
  unfolding Ensures
  Ensures-fail Q x w = tt

  -- What a run ensures it says of the result that it is known to have.
  pub Ensures-ok :
      (Q : A → World → Type 0) (r : Result A × World) (a : A) (w : World)
      → Ensures Q r
      → r ≡ (ok a, w)
      → Q a w
  unfolding Ensures
  Ensures-ok Q r a w h e = subst (Ensures Q) e h

  pub Ensures-in_tx :
      (Q : A → World → Type 0) (f : Op A) (w : World) → Ensures Q (f w) → Ensures Q (in_tx f w)
  unfolding Ensures in_tx within_tx
  Ensures-in_tx Q f w h = elim (Result-cases (f w).0) [
    | inl (a, e) ↦ rw e (rw e at h)
    | inr (x, e) ↦ rw e tt
  ]

module _ {A B : Type 0} (Q : B → World → Type 0) (f : A → Op B) where
  pub Ensures-bound :
      (r : Result A × World) → Ensures (λ a w. Ensures Q (f a w)) r → Ensures Q (bound f r)
  unfolding bound guard written Ensures
  Ensures-bound (ok a, w) h = h
  Ensures-bound (err x, w) h = tt

  -- A step of which nothing is known but the condition that it ensures.
  pub Ensures-then :
      (P : A → World → Type 0) (r : Result A × World)
      → Ensures P r
      → ((a : A) (w : World) → P a w → Ensures Q (f a w))
      → Ensures Q (bound f r)
  unfolding bound guard written Ensures
  Ensures-then P (ok a, w) p h = h a w p
  Ensures-then P (err x, w) p h = tt

  -- A step that cannot fail.
  pub Ensures-step : (a : A) (w : World) → Ensures Q (f a w) → Ensures Q (bound f (ok a, w))
  unfolding Ensures bound
  Ensures-step a w h = h

  -- A value that is looked up, or is missing.
  pub Ensures-found :
      (o : Option A) (x : Error) (w : World)
      → ((a : A) → o ≡ some a → Ensures Q (f a w))
      → Ensures Q (bound f (or_fail o x, w))
  unfolding bound guard written Ensures
  Ensures-found none x w h = tt
  Ensures-found (some a) x w h = h a refl

  -- A value that is known to be there.
  pub Ensures-known :
      (o : Option A) (a : A) (x : Error) (w : World)
      → o ≡ some a
      → Ensures Q (f a w)
      → Ensures Q (bound f (or_fail o x, w))
  unfolding Ensures bound
  Ensures-known o a x w e h = rw e h

module _ {A B : Type 0} (Q : B → World → Type 0) (f : Result A → Op B) where
  -- A call whose error the operation looks at.
  pub Ensures-attempted :
      (P : A → World → Type 0) (r : Result A × World)
      → Ensures P r
      → ((x : Error) (v : World) → Ensures Q (f (err x) v))
      → ((a : A) (v : World) → P a v → Ensures Q (f (ok a) v))
      → Ensures Q (bound f (ok r.0, r.1))
  unfolding Ensures bound
  Ensures-attempted P (ok a, v) p g h = h a v p
  Ensures-attempted P (err x, v) p g h = g x v

module _ {B : Type 0} (Q : B → World → Type 0) where
  pub Ensures-guard :
      (bad : Bool) (x : Error) (k : Op B) (w : World)
      → (bad ≡ false → Ensures Q (k w))
      → Ensures Q ((guard bad x >> k) w)
  unfolding bound guard written Ensures
  Ensures-guard true x k w h = tt
  Ensures-guard false x k w h = h refl

  -- A conditional write of one map.
  pub Ensures-written :
      {V : Type 0} (k : Op B) (put : V → MemoryStore) (r : Result V) (w : World)
      → ((m : V) → r ≡ ok m → Ensures Q (k (record w { store = put m })))
      → Ensures Q ((repo (λ s. written s put r) >> k) w)
  unfolding bound guard written Ensures
  Ensures-written k put (ok m) w h = h m refl
  Ensures-written k put (err x) w h = tt

module _ (Q : Unit {0} → World → Type 0) where
  -- The same write as the last step.
  pub Ensures-put :
      {V : Type 0} (put : V → MemoryStore) (r : Result V) (w : World)
      → ((m : V) → r ≡ ok m → Q tt (record w { store = put m }))
      → Ensures Q (repo (λ s. written s put r) w)
  unfolding bound guard written Ensures
  Ensures-put put (ok m) w h = h m refl
  Ensures-put put (err x) w h = tt
