-- ===== src/Common/Maps.antt =====
-- A Go map with string keys: an association list without an order that the program can rely on.
-- Iteration runs over `values`; a theorem for every map holds for every iteration order.
use Prim.Native.String.{String}
use mathlib.Core.Path.{◌≡◌, refl}
use mathlib.Core.Logic.{◌⊎◌, ◌≢◌, inl, inr}
use mathlib.Core.Bool.{Bool, false}
use mathlib.Core.Option.{Option, none, some}
use mathlib.Core.List.{List, [], ◌∷◌}
use native.Mathlib.Omega.{arith}
use text.Mathlib.Text.{◌==◌}
use text.Mathlib.TextEquality.{eq_iff}
use ano_pki_community.Common.Tests.{if◌then◌else◌, Bool-cases}
use ano_pki_community.Common.Lists.{any, All}

abbrev pub GoMap {ℓ} : Type ℓ → Type ℓ
GoMap V = List (String × V)

module _ {ℓ} {V : Type ℓ} where
  unfoldable pub lookup : String → GoMap V → Option V
  lookup key [] = none
  lookup key ((j, v) ∷ entries) = if j == key then some v else lookup key entries

  unfoldable pub insert : String → V → GoMap V → GoMap V
  insert key v [] = (key, v) ∷ []
  insert key v ((j, w) ∷ entries) =
      if j == key then (key, v) ∷ entries else (j, w) ∷ insert key v entries

  unfoldable pub delete : String → GoMap V → GoMap V
  delete key [] = []
  delete key ((j, w) ∷ entries) =
      let rest = delete key entries in if j == key then rest else (j, w) ∷ rest

  unfoldable pub values : GoMap V → List V
  values [] = []
  values ((j, v) ∷ entries) = v ∷ values entries

  pub lookup-insert :
      (key j : String) (v : V) (entries : GoMap V)
      → lookup j (insert key v entries) ≡ (if key == j then some v else lookup j entries)
  unfolding lookup insert
  lookup-insert key j v [] = refl
  lookup-insert key j v ((i, w) ∷ entries) =
      ground (arith, eq_iff key j, eq_iff i key, eq_iff i j, lookup-insert key j v entries)

  pub lookup-delete :
      (key j : String) (entries : GoMap V)
      → lookup j (delete key entries) ≡ (if key == j then none else lookup j entries)
  unfolding lookup delete
  lookup-delete key j [] = ground arith
  lookup-delete key j ((i, w) ∷ entries) =
      ground (arith, lookup-delete key j entries, eq_iff i key, eq_iff i j, eq_iff key j)

  pub lookup-insert_self :
      (key : String) (v : V) (entries : GoMap V) → lookup key (insert key v entries) ≡ some v
  lookup-insert_self key v entries = ground (arith, lookup-insert key key v entries, eq_iff key key)

  -- A map as Go has it: each key stands once, and here a value's key is its id.
  abbrev pub IsKeyed : (V → String) → GoMap V → Type ℓ
  IsKeyed id [] = Unit
  IsKeyed id ((key, v) ∷ entries) = (key ≡ id v) × (lookup key entries ≡ none) × IsKeyed id entries

  pub IsKeyed-insert :
      (id : V → String) (v : V) (entries : GoMap V)
      → IsKeyed id entries
      → IsKeyed id (insert (id v) v entries)
  unfolding lookup insert
  IsKeyed-insert id v [] h = (refl, refl, tt)
  IsKeyed-insert id v ((j, w) ∷ entries) h = ground (
    arith,
    eq_iff j (id v),
    eq_iff (id v) j,
    IsKeyed-insert id v entries h.2,
    lookup-insert (id v) j v entries,
  )

  -- A value that a key leads to fails every test that none of the values passes.
  pub lookup-any :
      (test : V → Bool) (key : String) (v : V) (entries : GoMap V)
      → any test (values entries) ≡ false
      → lookup key entries ≡ some v
      → test v ≡ false
  unfolding lookup values
  lookup-any test key v [] h e = cc
  lookup-any test key v ((j, w) ∷ entries) h e = ground (arith, lookup-any test key v entries)

  pub lookup-id :
      (id : V → String) (key : String) (v : V) (entries : GoMap V)
      → IsKeyed id entries
      → lookup key entries ≡ some v
      → key ≡ id v
  unfolding lookup
  lookup-id id key v [] h e = cc
  lookup-id id key v ((j, w) ∷ entries) h e =
      ground (arith, eq_iff j key, lookup-id id key v entries h.2)

  -- What a key leads to in the rest of a map it leads to in the map.
  pub lookup-cons :
      (j key : String) (v w : V) (entries : GoMap V)
      → lookup j entries ≡ none
      → lookup key entries ≡ some w
      → lookup key ((j, v) ∷ entries) ≡ some w
  unfolding lookup
  lookup-cons j key v w entries h e = ground (arith, eq_iff j key)

  pub lookup-cons_self :
      (key : String) (v : V) (entries : GoMap V) → lookup key ((key, v) ∷ entries) ≡ some v
  unfolding lookup
  lookup-cons_self key v entries = ground (arith, eq_iff key key)

  -- Behind an insertion a key leads to the new value, or to what it led to before.
  pub lookup-insert_cases :
      (key j : String) (v w : V) (entries : GoMap V)
      → lookup j (insert key v entries) ≡ some w
      → ((key ≡ j) × (v ≡ w)) ⊎ ((key ≢ j) × (lookup j entries ≡ some w))
  lookup-insert_cases key j v w entries h =
      ground (arith, lookup-insert key j v entries, eq_iff key j)

  pub All-values-insert {κ} :
      (P : V → Type κ) (key : String) (v : V) (entries : GoMap V)
      → P v
      → All P (values entries)
      → All P (values (insert key v entries))
  unfolding insert values
  All-values-insert P key v [] p h = (p, tt)
  All-values-insert P key v ((j, w) ∷ entries) p h = elim (Bool-cases (j == key)) [
    | inl e ↦ rw e (p, h.1)
    | inr e ↦ rw e (h.0, All-values-insert P key v entries p h.1)
  ]

  -- What fails a test on every value still does behind the insertion of one that fails it.
  pub any-values-insert :
      (test : V → Bool) (key : String) (v : V) (entries : GoMap V)
      → test v ≡ false
      → any test (values entries) ≡ false
      → any test (values (insert key v entries)) ≡ false
  unfolding insert values
  any-values-insert test key v [] p h = ground arith
  any-values-insert test key v ((j, w) ∷ entries) p h =
      ground (arith, any-values-insert test key v entries)
