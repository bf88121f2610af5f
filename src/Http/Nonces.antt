-- ===== src/Http/Nonces.antt =====
-- httpapi/acme.go: acmeMemoryNonceStore, the nonces of the ACME protocol. The mutex makes each operation
-- one step. A context that is already cancelled, on which both return its error, is left out.
pub mod Once
pub mod Size
use ano_pki_community.Common.{
  String, ℕ, zero, suc, ◌==◌, ◌||◌, Bool, true, false, not, Option, none, some, GoMap, lookup,
  insert, delete, length, leb, ltb, if◌then◌else◌, Time, zero_time, after, before,
}
use mathlib.Core.List.{[], ◌∷◌}

pub record AcmeStoredNonce : Type 0 where
  pub issued_at : Time
  pub expires_at : Time

abbrev pub NonceMap : Type 0
NonceMap = GoMap AcmeStoredNonce

-- removeExpiredLocked: the loop over the map.
unfoldable pub remove_expired : Time → NonceMap → NonceMap
remove_expired now [] = []
remove_expired now ((nonce, stored) ∷ nonces) =
    let rest = remove_expired now nonces in
    if not (after stored.expires_at now) then rest else (nonce, stored) ∷ rest

-- The inner loop of evictOldestLocked, with the oldest nonce so far.
unfoldable pub oldest_of : String → Time → NonceMap → String
oldest_of oldest_nonce oldest_issued_at [] = oldest_nonce
oldest_of oldest_nonce oldest_issued_at ((nonce, stored) ∷ nonces) =
    let kept = oldest_of oldest_nonce oldest_issued_at nonces in
    if oldest_nonce == "" || before stored.issued_at oldest_issued_at
    then oldest_of nonce stored.issued_at nonces
    else kept

-- evictOldestLocked. Each round deletes one nonce, so as many rounds as there are nonces are enough.
unfoldable pub evict_rounds : ℕ → ℕ → NonceMap → NonceMap
evict_rounds zero max_size nonces = nonces
evict_rounds (suc fuel) max_size nonces =
    let shorter = evict_rounds fuel max_size (delete (oldest_of "" zero_time nonces) nonces) in
    if ltb max_size (length nonces) then shorter else nonces

unfoldable pub evict_oldest : ℕ → NonceMap → NonceMap
evict_oldest max_size nonces = evict_rounds (length nonces) max_size nonces

-- Issue, for a store whose maxSize is `room + 1`. (With a maxSize of 0 the loop would never end.)
unfoldable pub issue : ℕ → String → Time → Time → NonceMap → NonceMap
issue room nonce issued_at expires_at nonces =
    insert nonce (record { issued_at = issued_at; expires_at = expires_at })
      (evict_oldest room (remove_expired issued_at nonces))

abbrev taken : String → NonceMap → Option AcmeStoredNonce → Bool × NonceMap
taken nonce nonces none = (false, nonces)
taken nonce nonces (some stored) = (true, delete nonce nonces)

unfoldable pub consume : String → Time → NonceMap → Bool × NonceMap
consume nonce now nonces =
    let kept = remove_expired now nonces in taken nonce kept (lookup nonce kept)
