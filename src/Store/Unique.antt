-- ===== src/Store/Unique.antt =====
-- A map in which no two values share a key of their own, such as an issuer's active responder or a
-- certificate's serial number. `Shares` says that two values share it.
use ano_pki_community.Common.{
  String, ◌≡◌, sym, ◌∙◌, inl, inr, Bool, false, some, GoMap, lookup, insert, values, any, IsKeyed,
  IsKeyed-insert, lookup-any, lookup-insert_cases,
}

module _ {V : Type 0} (id : V → String) (Shares : V → V → Type 0) where
  pub record IsUnique (m : GoMap V) : Type 0 where
    pub keyed : IsKeyed id m
    pub unique :
        (v w : V) → lookup (id v) m ≡ some v → lookup (id w) m ≡ some w → Shares v w → id v ≡ id w

  -- An insertion keeps the map unique if the new value shares with no value of another id.
  pub insert-IsUnique :
      ((v w : V) → Shares v w → Shares w v)
      → (r : V) (m : GoMap V) → IsUnique m
      → ((w : V) → lookup (id w) m ≡ some w → Shares r w → id w ≡ id r)
      → IsUnique (insert (id r) r m)
  insert-IsUnique swap r m s alone = record {
    keyed = IsKeyed-insert id r m s.keyed;
    unique = λ v w ev ew e. elim (lookup-insert_cases (id r) (id v) r v m ev) [
      | inl (p, q) ↦ elim (lookup-insert_cases (id r) (id w) r w m ew) [
        | inl (p', q') ↦ sym p ∙ p'
        | inr (n, old) ↦ sym (alone w old (rw q e) ∙ p)
      ]
      | inr (n, old) ↦ elim (lookup-insert_cases (id r) (id w) r w m ew) [
        | inl (p', q') ↦ alone v old (rw q' (swap v w e)) ∙ p'
        | inr (n', old') ↦ s.unique v w old old' e
      ]
    ];
  }

  -- A test over all values that finds every sharing, such as the store's guards make it.
  pub insert-IsUnique_of_test :
      ((v w : V) → Shares v w → Shares w v)
      → (test : V → V → Bool) → ((r w : V) → test r w ≡ false → Shares r w → id w ≡ id r)
      → (r : V) (m : GoMap V) → IsUnique m
      → any (test r) (values m) ≡ false
      → IsUnique (insert (id r) r m)
  insert-IsUnique_of_test swap test finds r m s none_found =
      insert-IsUnique swap r m s
        (λ w stored. finds r w (lookup-any (test r) (id w) w m none_found stored))
