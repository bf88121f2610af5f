-- ===== src/Lifecycle/Services/ApiKeys/Rotation.antt =====
-- service.go: what DisableAPIKey and RotateAPIKey leave.
use ano_pki_community.Common.{
  ap, ◌∙◌, String, ◌≡◌, ◌≢◌, refl, arith, false, not, true_of_not, is_yes_true, or_false, is_yes,
  ◌⊎◌, inl, inr, ◌<◌, Bool-cases, is_zero_time, some, GoMap, lookup, insert, lookup-insert,
  lookup-insert_self, eq_iff, Time, ok, Error, conditional_ok, sym,
}
use ano_pki_community.Domain.{ApiKey, ApiKeyStatus, ApiKeyStatus-discrete}
use ano_pki_community.Store.Access.{update_api_key_if_status as conditional_write}
use ano_pki_community.Store.Repository.{get_api_key, create_api_key, update_api_key_if_status}
use ano_pki_community.Lifecycle.World.{World}
use ano_pki_community.Lifecycle.World.Ensures.{
  Ensures, Ensures-ok, Ensures-in_tx, Ensures-guard, Ensures-step, Ensures-return, Ensures-known,
  Ensures-written,
}
use ano_pki_community.Lifecycle.Services.{Service}
use ano_pki_community.Lifecycle.Services.Audited.{Ensures-Audited}
use ano_pki_community.Lifecycle.Services.ApiKeys.{
  KeyHashes, is_active, key_expired, hash_api_key_token_with_pepper, disabled_key, rotated_key,
  rotate_found, rotate_api_key,
}

update_api_key-inserted :
    (k : ApiKey) (status : ApiKeyStatus) (m m' : GoMap ApiKey)
    → conditional_write m k status ≡ ok m'
    → m' ≡ insert k.id k m
unfolding conditional_write
update_api_key-inserted k status m m' h =
    let (old, found, same, e) =
      conditional_ok (lookup k.id m) Error.api_key_not_found
        (λ old. not (is_yes (ApiKeyStatus-discrete old.status status))) Error.invalid_transition
        (insert k.id k m) m' h in
    sym e

-- What the test of the expiry says: a key without one, or one that is still to come.
pub not_expired :
    (k : ApiKey) (now : Time)
    → key_expired k now ≡ false
    → (k.expires_at ≡ 0) ⊎ (now < k.expires_at)
not_expired k now h = elim (Bool-cases (is_zero_time k.expires_at)) [
  | inl e ↦ inl (ground arith)
  | inr e ↦ inr (ground arith)
]

two_keys :
    (a b : ApiKey) (m : GoMap ApiKey)
    → b.id ≢ a.id
    → (lookup a.id (insert b.id b (insert a.id a m)) ≡ some a)
      × (lookup b.id (insert b.id b (insert a.id a m)) ≡ some b)
two_keys a b m d = (
  ground (
    arith,
    lookup-insert b.id a.id b (insert a.id a m),
    eq_iff b.id a.id,
    lookup-insert_self a.id a m,
  ),
  lookup-insert_self b.id b (insert a.id a m),
)

module _ (svc : Service) (hashes : KeyHashes) where
  -- What a rotation of the key `old` returned and left.
  abbrev pub IsRotated : ApiKey → String → String → Time → ApiKey × String → World → Type 0
  IsRotated old id token now result w =
      (old.status ≡ ApiKeyStatus.active)
      × ((old.expires_at ≡ 0) ⊎ (now < old.expires_at))
      × (result.0 ≡ record {
        id = id;
        name = old.name;
        token_hash = hash_api_key_token_with_pepper svc hashes token hashes.api_key_pepper;
        status = ApiKeyStatus.active;
        actor = old.actor;
        scopes = old.scopes;
        expires_at = old.expires_at;
        last_used_at = 0;
        created_at = now;
        updated_at = now;
      })
      × (result.1 ≡ token)
      × (lookup old.id w.store.api_keys
          ≡ some (record old { status = ApiKeyStatus.disabled; updated_at = now }))
      × (lookup id w.store.api_keys ≡ some result.0)

  rotate_found-IsRotated :
      (actor token : String) (now : Time) (old : ApiKey) (w : World)
      → svc.environment.new_id w.ids ≢ old.id
      → Ensures
          (IsRotated old (svc.environment.new_id w.ids) token now)
          (rotate_found svc hashes actor token now old w)
  unfolding update_api_key_if_status create_api_key
  rotate_found-IsRotated actor token now old w fresh =
      let id = svc.environment.new_id w.ids in
      let Q = IsRotated old id token now in
      Ensures-guard Q _ _ _ w λ fit. Ensures-written Q _ _ _ w λ m wrote. Ensures-step Q _ _ _ (
        Ensures-step Q _ _ _ (
          Ensures-Audited Q _ svc actor _ _ _ _ _ _ λ v (log, same).
            let dead = disabled_key svc hashes old now in
            let both =
              two_keys dead (rotated_key svc hashes old id token now) w.store.api_keys fresh in
            let stored =
              ap (λ s. s.api_keys) same
              ∙ ap (insert id (rotated_key svc hashes old id token now))
                  (update_api_key-inserted dead ApiKeyStatus.active _ m wrote) in
            Ensures-return Q (rotated_key svc hashes old id token now, token) v
              (
                is_yes_true (ApiKeyStatus-discrete old.status ApiKeyStatus.active) (
                    true_of_not (is_active old)
                      (or_false (not (is_active old)) (key_expired old now) fit).0),
                not_expired old now (or_false (not (is_active old)) (key_expired old now) fit).1,
                refl,
                refl,
                ap (lookup old.id) stored ∙ both.0,
                ap (lookup id) stored ∙ both.1,
              )))

-- A rotation that succeeds, of the key `old` that is stored under its id, says that `old` was active and
-- had not expired. Behind it `old` is stored as disabled, and under a new id stands an active key with
-- its name, actor, scopes and expiry and the hash of the new token. The generator's id is not the old
-- one.
pub rotate_api_key_lem :
    (svc : Service) (hashes : KeyHashes) (actor token : String) (old : ApiKey) (w w' : World)
    (result : ApiKey × String)
    → lookup old.id w.store.api_keys ≡ some old
    → svc.environment.new_id w.ids ≢ old.id
    → rotate_api_key svc hashes actor old.id (some token) w ≡ (ok result, w')
    → IsRotated svc hashes old
        (svc.environment.new_id w.ids)
        token
        (svc.environment.reading w.readings)
        result
        w'
unfolding rotate_api_key get_api_key
rotate_api_key_lem svc hashes actor token old w w' result found fresh h =
    let now = svc.environment.reading w.readings in
    let Q = IsRotated svc hashes old (svc.environment.new_id w.ids) token now in
    Ensures-ok Q _ result w'
      (Ensures-guard Q _ _ _ w λ given. Ensures-step Q _ _ _ (
        Ensures-step Q _ _ _ (
          Ensures-in_tx Q _ _ (
            Ensures-known Q _ _ old _ _ found
              (rotate_found-IsRotated svc hashes actor token now old _ fresh)))))
      h
