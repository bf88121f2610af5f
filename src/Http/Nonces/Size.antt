-- ===== src/Http/Nonces/Size.antt =====
-- acme.go: the loop of evictOldestLocked ends, and the store never holds more than its size.
use ano_pki_community.Common.{
  String, ℕ, zero, suc, ◌+◌, ◌≡◌, ◌<◌, ◌≤◌, arith, Bool, true, false, Bool-cases, inl, inr, insert,
  delete, eq_iff, ◌==◌, ◌||◌, ltb, length, Time, zero_time, [], ◌∷◌,
}
use ano_pki_community.Http.Nonces.{
  AcmeStoredNonce, NonceMap, remove_expired, oldest_of, evict_rounds, evict_oldest, issue,
}

-- The key stands in the map.
abbrev is_key : String → NonceMap → Bool
is_key nonce [] = false
is_key nonce ((j, stored) ∷ nonces) = j == nonce || is_key nonce nonces

length-delete_le :
    (nonce : String) (nonces : NonceMap) → length (delete nonce nonces) ≤ length nonces
unfolding delete
length-delete_le nonce [] = omega arith
length-delete_le nonce ((j, stored) ∷ nonces) = ground (arith, length-delete_le nonce nonces)

length-delete_lt :
    (nonce : String) (nonces : NonceMap)
    → is_key nonce nonces ≡ true
    → length (delete nonce nonces) < length nonces
unfolding delete
length-delete_lt nonce [] h = cc
length-delete_lt nonce ((j, stored) ∷ nonces) h =
    ground (arith, length-delete_lt nonce nonces, length-delete_le nonce nonces)

-- The loop returns what it began with, or a key of the map.
oldest_of-cases :
    (best : String) (at : Time) (nonces : NonceMap)
    → (best == oldest_of best at nonces || is_key (oldest_of best at nonces) nonces) ≡ true
unfolding oldest_of
oldest_of-cases best at [] = ground (arith, eq_iff best best)
oldest_of-cases best at ((j, stored) ∷ nonces) =
    ground (arith, oldest_of-cases best at nonces, oldest_of-cases j stored.issued_at nonces)

oldest_of-is_key :
    (j : String) (stored : AcmeStoredNonce) (nonces : NonceMap)
    → let all = (j, stored) ∷ nonces in is_key (oldest_of "" zero_time all) all ≡ true
unfolding oldest_of
oldest_of-is_key j stored nonces = ground (arith, oldest_of-cases j stored.issued_at nonces)

delete_oldest-lt :
    (nonces : NonceMap)
    → 0 < length nonces
    → length (delete (oldest_of "" zero_time nonces) nonces) < length nonces
delete_oldest-lt [] h = absurd (omega (arith, h))
delete_oldest-lt ((j, stored) ∷ nonces) h =
    length-delete_lt _ ((j, stored) ∷ nonces) (oldest_of-is_key j stored nonces)

evict_rounds-length :
    (fuel max_size : ℕ) (nonces : NonceMap)
    → length nonces ≤ fuel
    → length (evict_rounds fuel max_size nonces) ≤ max_size
unfolding evict_rounds
evict_rounds-length zero max_size nonces h = omega (arith, h)
evict_rounds-length (suc fuel) max_size nonces h =
    elim (Bool-cases (ltb max_size (length nonces))) [
      | inl e ↦ rw e (
          evict_rounds-length fuel max_size _
            (omega (arith, h, delete_oldest-lt nonces (ground arith))))
      | inr e ↦ rw e (ground arith)
    ]

length-insert_le :
    (nonce : String) (stored : AcmeStoredNonce) (nonces : NonceMap)
    → length (insert nonce stored nonces) ≤ length nonces + 1
unfolding insert
length-insert_le nonce stored [] = omega arith
length-insert_le nonce stored ((j, x) ∷ nonces) =
    ground (arith, length-insert_le nonce stored nonces)

-- The loop of evictOldestLocked comes to an end with as many rounds as there are nonces, and behind an
-- Issue the store holds at most its size, which is at least 1, however many nonces it held before.
pub issue-length :
    (room : ℕ) (nonce : String) (issued_at expires_at : Time) (nonces : NonceMap)
    → (length (evict_oldest room nonces) ≤ room)
      × (length (issue room nonce issued_at expires_at nonces) ≤ room + 1)
unfolding issue evict_oldest
issue-length room nonce issued_at expires_at nonces =
    let kept = remove_expired issued_at nonces in
    let older = evict_rounds (length kept) room kept in
    (
      evict_rounds-length (length nonces) room nonces (omega arith),
      omega (
        arith,
        length-insert_le nonce (record { issued_at = issued_at; expires_at = expires_at }) older,
        evict_rounds-length (length kept) room kept (omega arith),
      ),
    )
