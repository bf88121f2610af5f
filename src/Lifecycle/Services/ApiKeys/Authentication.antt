-- ===== src/Lifecycle/Services/ApiKeys/Authentication.antt =====
-- service.go: the keys that AuthenticateAPIKey accepts.
use mathlib.Core.List.{Mem, mem-cons_self, mem-cons_of_mem}
use ano_pki_community.Common.{
  String, ◌≡◌, ◌⊎◌, refl, ap, sym, subst, ◌∙◌, some_inj, Result-cases, inl, inr, true, false, not,
  ◌==◌, Bool-cases, true_of_not, or_false, some, Option-cases, List, [], ◌∷◌, values, eq_iff,
  Result, ok, err, Error,
}
use ano_pki_community.Domain.{ApiKey}
use ano_pki_community.Store.Access.{api_key_by_token_hash, first_with_hash}
use ano_pki_community.Store.Repository.{get_api_key_by_token_hash}
use ano_pki_community.Lifecycle.World.{World, bound}
use ano_pki_community.Lifecycle.World.Ensures.{
  Ensures, Ensures-ok, Ensures-guard, Ensures-step, Ensures-return, Ensures-fail, Ensures-attempted,
  Ensures-then, Ensures-world,
}
use ano_pki_community.Lifecycle.Services.{Service, is_blank}
use ano_pki_community.Lifecycle.Services.ApiKeys.{
  KeyHashes, is_active, key_expired, is_empty, is_missing_key, is_lost_key, hash_api_key_token,
  hash_api_key_token_with_pepper, peppered_found, get_api_key_by_token, used_key, touched,
  authenticated, authenticate_api_key,
}

first_with_hash-same :
    (hash : String) (keys : List ApiKey) (k : ApiKey)
    → first_with_hash hash keys ≡ some k
    → (k.token_hash ≡ hash) × Mem k keys
unfolding first_with_hash
first_with_hash-same hash [] k h = cc
first_with_hash-same hash (x ∷ keys) k h = elim (Bool-cases (x.token_hash == hash)) [
  | inl e ↦
      let same : x ≡ k = some_inj x k (rw e at h) in
      (
        ap (λ y. y.token_hash) (sym same) ∙ (eq_iff x.token_hash hash).0 e,
        subst (λ y. Mem y (x ∷ keys)) same mem-cons_self,
      )
  | inr e ↦
      let (found, there) = first_with_hash-same hash keys k (rw e at h) in
      (found, mem-cons_of_mem x there)
]

module _ (svc : Service) (hashes : KeyHashes) where
  -- The key has the hash of the token, with the pepper or without.
  abbrev pub HasToken : String → ApiKey → Type 0
  HasToken token k =
      (k.token_hash ≡ hash_api_key_token svc hashes token)
      ⊎ (k.token_hash ≡ hash_api_key_token_with_pepper svc hashes token hashes.api_key_pepper)

  by_hash :
      (P : ApiKey → World → Type 0) (hash : String) (w : World)
      → ((k : ApiKey) → k.token_hash ≡ hash → Mem k (values w.store.api_keys) → P k w)
      → Ensures P (api_key_by_token_hash w.store.api_keys hash, w)
  unfolding api_key_by_token_hash
  by_hash P hash w h = elim (Option-cases (first_with_hash hash (values w.store.api_keys))) [
    | inl e ↦ rw e (Ensures-fail _ _ w)
    | inr (k, e) ↦
        let (same, there) = first_with_hash-same hash _ k e in
        rw e (Ensures-return P k w (h k same there))
  ]

  -- A stored key that has a token was looked up, and nothing else was done.
  abbrev Looked : String → World → ApiKey → World → Type 0
  Looked token w k v = HasToken token k × Mem k (values w.store.api_keys) × (v ≡ w)

  peppered_found-HasToken :
      (token : String) (x : Error) (w : World)
      → Ensures (Looked token w) (peppered_found svc hashes token (err x) w)
  unfolding get_api_key_by_token_hash
  peppered_found-HasToken token x w = elim (Bool-cases (is_missing_key x)) [
    | inl e ↦ rw e (by_hash (Looked token w) _ w λ k same there. (inl same, there, refl))
    | inr e ↦ rw e (Ensures-fail _ x w)
  ]

  get_api_key_by_token-HasToken :
      (token : String) (w : World)
      → Ensures (Looked token w) (get_api_key_by_token svc hashes token w)
  unfolding get_api_key_by_token get_api_key_by_token_hash bound
  get_api_key_by_token-HasToken token w =
      elim (Bool-cases (not (svc.trim_space hashes.api_key_pepper == ""))) [
        | inl e ↦
            rw e
              (elim (Result-cases (
                api_key_by_token_hash w.store.api_keys
                  (hash_api_key_token_with_pepper svc hashes token hashes.api_key_pepper))) [
                    | inl (k, f) ↦ rw f (
                        Ensures-return (Looked token w) k w (
                          Ensures-ok (Looked token w) _ k w
                            (by_hash (Looked token w) _ w λ k same there. (inr same, there, refl))
                            (ap (λ r. (r, w)) f)))
                    | inr (x, f) ↦ rw f (peppered_found-HasToken token x w)
                  ])
        | inr e ↦ rw e (by_hash (Looked token w) _ w λ k same there. (inl same, there, refl))
      ]

  -- What an authenticated key says of the key that was found, where `w` is the world before: it is stored
  -- there, and `now` is the next reading of the clock.
  abbrev pub IsAuthenticated : String → World → ApiKey → World → Type 0
  IsAuthenticated token w k v =
      let now = svc.environment.reading w.readings in
      (old : ApiKey) × (k ≡ used_key svc hashes old now)
      × Mem old (values w.store.api_keys)
      × HasToken (svc.trim_space token) old
      × (is_active old ≡ true)
      × (is_blank svc old.actor ≡ false)
      × (is_empty old.scopes ≡ false)
      × (key_expired old now ≡ false)

  touched-key :
      (Q : ApiKey → World → Type 0) (k : ApiKey) (r : Result (Unit {0})) (w : World)
      → Q k w
      → Ensures Q (touched svc hashes k r w)
  touched-key Q k (ok u) w q = Ensures-return Q k w q
  touched-key Q k (err x) w q = elim (Bool-cases (is_lost_key x)) [
    | inl e ↦ rw e (Ensures-fail Q _ w)
    | inr e ↦ rw e (Ensures-fail Q _ w)
  ]

  authenticated-err :
      (Q : ApiKey → World → Type 0) (x : Error) (w : World)
      → Ensures Q (authenticated svc hashes (err x) w)
  authenticated-err Q x w = elim (Bool-cases (is_missing_key x)) [
    | inl e ↦ rw e (Ensures-fail Q _ w)
    | inr e ↦ rw e (Ensures-fail Q _ w)
  ]

  authenticated-ok :
      (token : String) (old : ApiKey) (w : World)
      → HasToken (svc.trim_space token) old
      → Mem old (values w.store.api_keys)
      → Ensures (IsAuthenticated token w) (authenticated svc hashes (ok old) w)
  authenticated-ok token old w has there =
      let Q = IsAuthenticated token w in
      Ensures-guard Q _ _ _ w λ fit. Ensures-guard Q _ _ _ w λ scoped. Ensures-step Q _ _ _ (
        Ensures-guard Q _ _ _ _ λ early.
          Ensures-then Q _ (λ r v. Unit {0}) _ (Ensures-world _ _ λ r. tt)
            λ r v u. touched-key Q (used_key svc hashes old _) r v (
              old,
              refl,
              there,
              has,
              true_of_not _ (or_false _ _ fit).0,
              (or_false _ _ fit).1,
              scoped,
              early,
            ))

  pub authenticate_api_key-IsAuthenticated :
      (token : String) (w : World)
      → Ensures (IsAuthenticated token w) (authenticate_api_key svc hashes token w)
  unfolding authenticate_api_key
  authenticate_api_key-IsAuthenticated token w =
      let Q = IsAuthenticated token w in
      Ensures-guard Q _ _ _ w λ given.
        Ensures-attempted Q (authenticated svc hashes) (Looked (svc.trim_space token) w) _
          (get_api_key_by_token-HasToken (svc.trim_space token) w) (λ x v. authenticated-err Q x v)
          λ old v (has, there, same). rw same (authenticated-ok token old w has there)
