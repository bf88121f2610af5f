-- ===== src/Http/Scopes/Authenticated.antt =====
-- server.go: authenticateRequest, and what it promises in API key mode. The context that it returns
-- stands here by the actor that it holds; the metadata for the audit log is left out.
use mathlib.Core.List.{Mem}
use ano_pki_community.Common.{
  String, ◌≡◌, ◌⊎◌, ◌<◌, is_yes_true, values, refl, ap, sym, ◌∙◌, ◌==◌, true, false, not,
  true_of_not, Option, none, some, if◌then◌else◌, ok, Error,
}
use ano_pki_community.Domain.{ApiKey, ApiKeyStatus, ApiKeyStatus-discrete}
use ano_pki_community.Lifecycle.World.{World, Op, return, fail, ◌>>=◌, ◌>>◌, guard}
use ano_pki_community.Lifecycle.World.Ensures.{
  Ensures, Ensures-ok, Ensures-guard, Ensures-return, Ensures-fail, Ensures-then,
}
use ano_pki_community.Lifecycle.Services.{Service, is_blank}
use ano_pki_community.Lifecycle.Services.ApiKeys.{KeyHashes, authenticate_api_key}
use ano_pki_community.Lifecycle.Services.ApiKeys.Rotation.{not_expired}
use ano_pki_community.Lifecycle.Services.ApiKeys.Authentication.{
  HasToken, authenticate_api_key-IsAuthenticated,
}
use ano_pki_community.Http.Scopes.{
  Texts, is_public_endpoint, required_scope_for_request, api_key_allows_scope, bearer_token,
}

-- The mode of AuthConfig; an unknown one is refused.
pub data AuthMode : Type 0 where
  dev api_key unknown : AuthMode

-- What authenticateRequest reads of a request.
pub record Request : Type 0 where
  pub method : String
  pub path : String
  pub authorization : String
  pub x_actor : String

-- requestActor, for a context that holds no actor.
unfoldable pub request_actor : Request → String
request_actor r = if r.x_actor == "" then "anonymous" else r.x_actor

module _ (texts : Texts) (svc : Service) (hashes : KeyHashes) where
  abbrev with_token : Request → Option String → Op String
  with_token r none = fail Error.unauthorized
  with_token r (some token) = do
    key ← authenticate_api_key svc hashes token
    guard (not (api_key_allows_scope key (required_scope_for_request r.method r.path)))
        Error.forbidden
    return key.actor

  abbrev with_api_key : Request → Op String
  with_api_key r =
      if is_public_endpoint texts r.method r.path
      then return "public"
      else with_token r (bearer_token texts r.authorization)

  unfoldable pub authenticate_request : AuthMode → Request → Op String
  authenticate_request AuthMode.dev r = return (request_actor r)
  authenticate_request AuthMode.api_key r = with_api_key r
  authenticate_request AuthMode.unknown r = fail Error.unauthorized

  -- The key that a request was let through with, for an actor, where `w` is the world before.
  abbrev pub IsLetThrough : Request → World → String → Type 0
  IsLetThrough r w actor =
      let now = svc.environment.reading w.readings in
      (key : ApiKey) × (token : String) × (bearer_token texts r.authorization ≡ some token)
      × Mem key (values w.store.api_keys)
      × HasToken svc hashes (svc.trim_space token) key
      × (key.status ≡ ApiKeyStatus.active)
      × ((key.expires_at ≡ 0) ⊎ (now < key.expires_at))
      × (api_key_allows_scope key (required_scope_for_request r.method r.path) ≡ true)
      × (is_blank svc key.actor ≡ false)
      × (actor ≡ key.actor)

  with_token-IsLetThrough :
      (r : Request) (o : Option String) (w : World)
      → bearer_token texts r.authorization ≡ o
      → Ensures (λ actor v. IsLetThrough r w actor) (with_token r o w)
  unfolding api_key_allows_scope
  with_token-IsLetThrough r none w e = Ensures-fail _ _ w
  with_token-IsLetThrough r (some token) w e =
      let Q : String → World → Type 0 = λ actor v. IsLetThrough r w actor in
      Ensures-then Q _ _ _ (authenticate_api_key-IsAuthenticated svc hashes token w)
        λ k v (old, used, there, has, active, named, scoped, early).
          Ensures-guard Q _ _ _ v λ allowed. Ensures-return Q _ v (
            old,
            token,
            e,
            there,
            has,
            is_yes_true (ApiKeyStatus-discrete old.status ApiKeyStatus.active) active,
            not_expired old (svc.environment.reading w.readings) early,
            ap (λ x. api_key_allows_scope x (required_scope_for_request r.method r.path)) (sym used)
                ∙ true_of_not _ allowed,
            named,
            ap (λ x. x.actor) used,
          )

  with_api_key-IsLetThrough :
      (r : Request) (w : World)
      → is_public_endpoint texts r.method r.path ≡ false
      → Ensures (λ actor v. IsLetThrough r w actor) (with_api_key r w)
  with_api_key-IsLetThrough r w e = rw e (with_token-IsLetThrough r _ w refl)

-- In API key mode a request to an endpoint that is not public is let through only with a bearer token,
-- and only if a key that is stored with that token's hash is active, has not expired by the reading of
-- the clock, names an actor and has a scope that allows the request. The actor of the context is then
-- the key's.
pub authenticate_request-IsLetThrough :
    (texts : Texts) (svc : Service) (hashes : KeyHashes) (r : Request) (actor : String)
    (w w' : World)
    → is_public_endpoint texts r.method r.path ≡ false
    → authenticate_request texts svc hashes AuthMode.api_key r w ≡ (ok actor, w')
    → IsLetThrough texts svc hashes r w actor
unfolding authenticate_request
authenticate_request-IsLetThrough texts svc hashes r actor w w' private_ h =
    Ensures-ok (λ actor v. IsLetThrough texts svc hashes r w actor) _ actor w'
      (with_api_key-IsLetThrough texts svc hashes r w private_) h
