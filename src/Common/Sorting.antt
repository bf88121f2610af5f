-- ===== src/Common/Sorting.antt =====
-- `sort.Slice` and `sort.SliceStable` of Go, as an insertion sort by the source's `less`. Items that
-- `less` does not tell apart keep their order, as sort.SliceStable has it.
use Prim.Native.Nat.{ℕ, ◌≤◌}
use Prim.Native.String.{String, compare}
use mathlib.Core.Path.{◌≡◌, refl}
use mathlib.Core.Logic.{inl, inr}
use mathlib.Core.Bool.{Bool, true, false, ◌||◌}
use mathlib.Core.List.{List, [], ◌∷◌, Perm}
use mathlib.Core.List.Perm
use native.Mathlib.Nat.{le_trans}
use native.Mathlib.Omega.{arith}
use text.Mathlib.Text.{is_lt}
use ano_pki_community.Common.Tests.{if◌then◌else◌, Bool-cases, eqb, ltb}
use ano_pki_community.Common.Lists.{All, any}

-- Go's `<` on strings.
abbrev pub text_before : String → String → Bool
text_before s t = is_lt (compare s t)

module _ {ℓ} {A : Type ℓ} (less : A → A → Bool) where
  unfoldable pub insert_sorted : A → List A → List A
  insert_sorted x [] = x ∷ []
  insert_sorted x (y ∷ ys) = if less y x then y ∷ insert_sorted x ys else x ∷ y ∷ ys

  unfoldable pub sort_slice : List A → List A
  unfolding insert_sorted
  sort_slice [] = []
  sort_slice (x ∷ xs) = insert_sorted x (sort_slice xs)

  insert_sorted-perm : (x : A) (ys : List A) → Perm (insert_sorted x ys) (x ∷ ys)
  unfolding insert_sorted
  insert_sorted-perm x [] = Perm.refl _
  insert_sorted-perm x (y ∷ ys) = elim (Bool-cases (less y x)) [
    | inl e ↦ rw e (Perm.trans (Perm.cons y (insert_sorted-perm x ys)) (Perm.swap x y ys))
    | inr e ↦ rw e (Perm.refl _)
  ]

  -- The sorted slice holds the same items.
  pub sort_slice-perm : (xs : List A) → Perm (sort_slice xs) xs
  unfolding sort_slice
  sort_slice-perm [] = Perm.refl _
  sort_slice-perm (x ∷ xs) =
      Perm.trans (insert_sorted-perm x (sort_slice xs)) (Perm.cons x (sort_slice-perm xs))

  All-insert_sorted {κ} :
      (P : A → Type κ) (x : A) (ys : List A) → P x → All P ys → All P (insert_sorted x ys)
  unfolding insert_sorted
  All-insert_sorted P x [] p h = (p, tt)
  All-insert_sorted P x (y ∷ ys) p h = elim (Bool-cases (less y x)) [
    | inl e ↦ rw e (h.0, All-insert_sorted P x ys p h.1)
    | inr e ↦ rw e (p, h)
  ]

  pub All-sort_slice {κ} : (P : A → Type κ) (xs : List A) → All P xs → All P (sort_slice xs)
  unfolding sort_slice
  All-sort_slice P [] h = tt
  All-sort_slice P (x ∷ xs) h = All-insert_sorted P x (sort_slice xs) h.0 (All-sort_slice P xs h.1)

  any-insert_sorted :
      (test : A → Bool) (x : A) (ys : List A)
      → any test (insert_sorted x ys) ≡ (test x || any test ys)
  unfolding insert_sorted
  any-insert_sorted test x [] = refl
  any-insert_sorted test x (y ∷ ys) = ground (arith, any-insert_sorted test x ys)

  pub any-sort_slice : (test : A → Bool) (xs : List A) → any test (sort_slice xs) ≡ any test xs
  unfolding sort_slice
  any-sort_slice test [] = refl
  any-sort_slice test (x ∷ xs) =
      ground (arith, any-insert_sorted test x (sort_slice xs), any-sort_slice test xs)

module _ {ℓ} {A : Type ℓ} (key : A → ℕ) where
  -- The keys do not fall along the list.
  abbrev pub IsSortedBy : List A → Type 0
  IsSortedBy [] = Unit {0}
  IsSortedBy (x ∷ xs) = All (λ y. key x ≤ key y) xs × IsSortedBy xs

  module _ (less : A → A → Bool) (le_of_less : (a b : A) → less a b ≡ true → key a ≤ key b)
      (ge_of_not_less : (a b : A) → less a b ≡ false → key b ≤ key a) where
    All-le : (m n : ℕ) (ys : List A) → m ≤ n → All (λ y. n ≤ key y) ys → All (λ y. m ≤ key y) ys
    All-le m n [] h all = tt
    All-le m n (y ∷ ys) h all = (le_trans h all.0, All-le m n ys h all.1)

    insert_sorted-IsSortedBy :
        (x : A) (ys : List A) → IsSortedBy ys → IsSortedBy (insert_sorted less x ys)
    unfolding insert_sorted
    insert_sorted-IsSortedBy x [] h = (tt, tt)
    insert_sorted-IsSortedBy x (y ∷ ys) h = elim (Bool-cases (less y x)) [
      | inl e ↦ rw e (
        All-insert_sorted less (λ z. key y ≤ key z) x ys (le_of_less y x e) h.0,
        insert_sorted-IsSortedBy x ys h.1,
      )
      | inr e ↦
          let first = ge_of_not_less y x e in rw e ((first, All-le (key x) (key y) ys first h.0), h)
    ]

    -- A `less` that looks at the key first sorts by it.
    pub sort_slice-IsSortedBy : (xs : List A) → IsSortedBy (sort_slice less xs)
    unfolding sort_slice
    sort_slice-IsSortedBy [] = tt
    sort_slice-IsSortedBy (x ∷ xs) =
        insert_sorted-IsSortedBy x (sort_slice less xs) (sort_slice-IsSortedBy xs)

-- The `less` of most lists of the store: by a time, then by a text.
abbrev pub earlier : ℕ → String → ℕ → String → Bool
earlier t s u r = if eqb t u then text_before s r else ltb t u

pub le-earlier : (t : ℕ) (s : String) (u : ℕ) (r : String) → earlier t s u r ≡ true → t ≤ u
le-earlier t s u r h = ground arith

pub ge-not_earlier : (t : ℕ) (s : String) (u : ℕ) (r : String) → earlier t s u r ≡ false → u ≤ t
ge-not_earlier t s u r h = ground arith
