-- ===== src/Http/Nonces/Once.antt =====
-- acme.go: a nonce is good once, and not for ever.
use ano_pki_community.Common.{
  String, ℕ, ◌≡◌, ◌≢◌, ◌<◌, All, refl, arith, true, false, none, some, Option-cases, inl, inr,
  lookup, lookup-insert_self, lookup-delete, eq_iff, Time, List, [], ◌∷◌,
}
use ano_pki_community.Http.Nonces.{
  AcmeStoredNonce, NonceMap, remove_expired, consume, issue, evict_oldest,
}

-- Nonces that are consumed, each at a time.
abbrev pub consume_all : List (String × Time) → NonceMap → NonceMap
consume_all [] nonces = nonces
consume_all ((nonce, now) ∷ rest) nonces = consume_all rest (consume nonce now nonces).1

-- A call that consumes another nonce, before a time.
abbrev pub IsOther : String → Time → String × Time → Type 0
IsOther nonce expires_at (other, now) = (other ≢ nonce) × (now < expires_at)

-- What is not stored is not stored after the expired ones are removed.
remove_expired-none :
    (nonce : String) (now : Time) (nonces : NonceMap)
    → lookup nonce nonces ≡ none
    → lookup nonce (remove_expired now nonces) ≡ none
unfolding remove_expired lookup
remove_expired-none nonce now [] h = h
remove_expired-none nonce now ((j, stored) ∷ nonces) h =
    ground (arith, remove_expired-none nonce now nonces)

consume-none :
    (nonce other : String) (now : Time) (nonces : NonceMap)
    → lookup nonce nonces ≡ none
    → lookup nonce (consume other now nonces).1 ≡ none
unfolding consume
consume-none nonce other now nonces h =
    let kept = remove_expired now nonces in
    let gone = remove_expired-none nonce now nonces h in
    elim (Option-cases (lookup other kept)) [
      | inl e ↦ rw e gone
      | inr (stored, e) ↦ rw e (ground (arith, lookup-delete other nonce kept))
    ]

consume_all-none :
    (nonce : String) (rest : List (String × Time)) (nonces : NonceMap)
    → lookup nonce nonces ≡ none
    → lookup nonce (consume_all rest nonces) ≡ none
consume_all-none nonce [] nonces h = h
consume_all-none nonce ((other, now) ∷ rest) nonces h =
    consume_all-none nonce rest _ (consume-none nonce other now nonces h)

refused :
    (nonce : String) (now : Time) (nonces : NonceMap)
    → lookup nonce nonces ≡ none
    → (consume nonce now nonces).0 ≡ false
unfolding consume
refused nonce now nonces h = rw (remove_expired-none nonce now nonces h) refl

consumed-gone :
    (nonce : String) (now : Time) (nonces : NonceMap)
    → lookup nonce (consume nonce now nonces).1 ≡ none
unfolding consume
consumed-gone nonce now nonces =
    let kept = remove_expired now nonces in
    elim (Option-cases (lookup nonce kept)) [
      | inl e ↦ rw e e
      | inr (stored, e) ↦ rw e (ground (arith, lookup-delete nonce nonce kept, eq_iff nonce nonce))
    ]

remove_expired-found :
    (nonce : String) (now : Time) (nonces : NonceMap) (stored : AcmeStoredNonce)
    → lookup nonce nonces ≡ some stored
    → now < stored.expires_at
    → lookup nonce (remove_expired now nonces) ≡ some stored
unfolding remove_expired lookup
remove_expired-found nonce now [] stored h l = h
remove_expired-found nonce now ((j, x) ∷ nonces) stored h l =
    ground (arith, remove_expired-found nonce now nonces stored)

consume-found :
    (nonce other : String) (now : Time) (nonces : NonceMap) (stored : AcmeStoredNonce)
    → lookup nonce nonces ≡ some stored
    → other ≢ nonce
    → now < stored.expires_at
    → lookup nonce (consume other now nonces).1 ≡ some stored
unfolding consume
consume-found nonce other now nonces stored h d l =
    let kept = remove_expired now nonces in
    let there = remove_expired-found nonce now nonces stored h l in
    elim (Option-cases (lookup other kept)) [
      | inl e ↦ rw e there
      | inr (gone, e) ↦ rw e (ground (arith, lookup-delete other nonce kept, eq_iff other nonce))
    ]

consume_all-found :
    (nonce : String) (before : List (String × Time)) (nonces : NonceMap) (stored : AcmeStoredNonce)
    → lookup nonce nonces ≡ some stored
    → All (IsOther nonce stored.expires_at) before
    → lookup nonce (consume_all before nonces) ≡ some stored
consume_all-found nonce [] nonces stored h a = h
consume_all-found nonce ((other, now) ∷ before) nonces stored h a =
    consume_all-found nonce before _ stored
      (consume-found nonce other now nonces stored h a.0.0 a.0.1) a.1

issue-found :
    (room : ℕ) (nonce : String) (issued_at expires_at : Time) (nonces : NonceMap)
    → lookup nonce (issue room nonce issued_at expires_at nonces)
      ≡ some (record { issued_at = issued_at; expires_at = expires_at })
unfolding issue
issue-found room nonce issued_at expires_at nonces =
    lookup-insert_self nonce _ (evict_oldest room (remove_expired issued_at nonces))

accepted :
    (nonce : String) (now : Time) (nonces : NonceMap) (stored : AcmeStoredNonce)
    → lookup nonce nonces ≡ some stored
    → now < stored.expires_at
    → (consume nonce now nonces).0 ≡ true
unfolding consume
accepted nonce now nonces stored h l = rw (remove_expired-found nonce now nonces stored h l) refl

-- A nonce is consumed once. Behind the Issue and any calls before its expiry that consume other nonces,
-- with no Issue among them, it is consumed at every time before it expires; and behind that call and any
-- calls that consume nonces, it is refused at every time.
pub nonce_consumed_once :
    (room : ℕ) (nonce : String) (issued_at expires_at now later : Time)
    (before rest : List (String × Time)) (nonces : NonceMap)
    → All (IsOther nonce expires_at) before
    → now < expires_at
    → let (found, left) =
        consume nonce now (consume_all before (issue room nonce issued_at expires_at nonces)) in
      (found ≡ true) × ((consume nonce later (consume_all rest left)).0 ≡ false)
nonce_consumed_once room nonce issued_at expires_at now later before rest nonces others l = (
  accepted nonce now _ _
      (consume_all-found nonce before _ _ (issue-found room nonce issued_at expires_at nonces)
        others)
      l,
  refused nonce later _ (consume_all-none nonce rest _ (consumed-gone nonce now _)),
)
