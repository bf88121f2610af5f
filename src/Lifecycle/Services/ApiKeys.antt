-- ===== src/Lifecycle/Services/ApiKeys.antt =====
-- lifecycle/service.go: API keys: their creation, authentication, end and rotation. SHA-256 and HMAC in
-- hexadecimal and the random token are arguments.
pub mod Authentication
pub mod Rotation
use Prim.Native.String.{◌++◌}
use ano_pki_community.Common.{
  String, ◌==◌, ◌&&◌, ◌||◌, Bool, true, false, not, is_yes, Option, none, some, List, [], ◌∷◌, any,
  if◌then◌else◌, Time, zero_time, is_zero_time, after, Result, ok, err, Error, or_fail,
}
use ano_pki_community.Domain.{
  ApiKey, ApiKeyStatus, ApiKeyStatus-discrete, ApiKeyScope, ApiKeyScope-discrete,
}
use ano_pki_community.Store.Repository as Repository
use ano_pki_community.Lifecycle.World.{
  World, Op, return, fail, lift, ◌>>=◌, ◌>>◌, guard, attempt, repo, clock_now, fresh_id, in_tx,
}
use ano_pki_community.Lifecycle.Services.{
  Service, Fields, audit_fields, is_blank, create_audit_event, add_status_transition,
}

-- The pepper, the two hashes in hexadecimal (of a token, and of a pepper and a token), and the text of
-- a list of scopes.
pub record KeyHashes : Type 0 where
  pub api_key_pepper : String
  pub sha256_hex : String → String
  pub hmac_sha256_hex : String → String → String
  pub scopes_text : List ApiKeyScope → String

pub record CreateApiKeyRequest : Type 0 where
  pub name : String
  pub actor : String
  pub scopes : List ApiKeyScope
  pub expires_at : Time

abbrev pub is_active : ApiKey → Bool
is_active key = is_yes (ApiKeyStatus-discrete key.status ApiKeyStatus.active)

abbrev pub key_expired : ApiKey → Time → Bool
key_expired key now = not (is_zero_time key.expires_at) && not (after key.expires_at now)

abbrev pub is_empty : List ApiKeyScope → Bool
is_empty [] = true
is_empty (scope ∷ scopes) = false

-- validateAPIKeyScopes: of the three scopes, each at most once.
unfoldable pub has_repeated_scope : List ApiKeyScope → Bool
has_repeated_scope [] = false
has_repeated_scope (scope ∷ scopes) =
    any (λ other. is_yes (ApiKeyScope-discrete scope other)) scopes || has_repeated_scope scopes

unfoldable pub validate_api_key_scopes : List ApiKeyScope → Result (Unit {0})
validate_api_key_scopes scopes =
    if is_empty scopes || has_repeated_scope scopes then err Error.invalid_request else ok tt

abbrev text_fields : KeyHashes → ApiKey → Fields
text_fields hashes key =
    ("api_key_id", key.id)
    ∷ ("api_key_name", key.name)
    ∷ ("api_key_actor", key.actor)
    ∷ ("api_key_scopes", hashes.scopes_text key.scopes)
    ∷ []

abbrev pub api_key_audit_fields : KeyHashes → ApiKey → Fields
api_key_audit_fields hashes key = audit_fields (text_fields hashes key)

-- An error that a lookup of a key gives, or another.
abbrev pub is_missing_key : Error → Bool
is_missing_key Error.api_key_not_found = true
is_missing_key _ = false

abbrev is_lost_key : Error → Bool
is_lost_key Error.api_key_not_found = true
is_lost_key Error.invalid_transition = true
is_lost_key _ = false

module _ (svc : Service) (hashes : KeyHashes) where
  unfoldable pub hash_api_key_token : String → String
  hash_api_key_token token = "sha256:" ++ hashes.sha256_hex token

  unfoldable pub hash_api_key_token_with_pepper : String → String → String
  hash_api_key_token_with_pepper token pepper =
      let trimmed = svc.trim_space pepper in
      if trimmed == ""
      then hash_api_key_token token
      else "hmac-sha256:" ++ hashes.hmac_sha256_hex trimmed token

  abbrev peppered_found : String → Result ApiKey → Op ApiKey
  peppered_found token (ok key) = return key
  peppered_found token (err x) =
      if is_missing_key x
      then repo (Repository.get_api_key_by_token_hash (hash_api_key_token token))
      else fail x

  unfoldable pub get_api_key_by_token : String → Op ApiKey
  get_api_key_by_token token =
      if not (svc.trim_space hashes.api_key_pepper == "")
      then (attempt (
            repo (
              Repository.get_api_key_by_token_hash
                (hash_api_key_token_with_pepper token hashes.api_key_pepper)))
          >>= peppered_found token)
      else repo (Repository.get_api_key_by_token_hash (hash_api_key_token token))

  abbrev pub used_key : ApiKey → Time → ApiKey
  used_key key now = record key { last_used_at = now; updated_at = now }

  abbrev touched : ApiKey → Result (Unit {0}) → Op ApiKey
  touched key (ok u) = return key
  touched key (err x) = if is_lost_key x then fail Error.unauthorized else fail x

  abbrev pub authenticated : Result ApiKey → Op ApiKey
  authenticated (err x) = if is_missing_key x then fail Error.unauthorized else fail x
  authenticated (ok key) = do
    guard (not (is_active key) || is_blank svc key.actor) Error.unauthorized
    guard (is_empty key.scopes) Error.unauthorized
    now ← clock_now svc.environment
    guard (key_expired key now) Error.unauthorized
    wrote ←
        attempt (repo (Repository.update_api_key_if_status (used_key key now) ApiKeyStatus.active))
    touched (used_key key now) wrote

  unfoldable pub authenticate_api_key : String → Op ApiKey
  authenticate_api_key token = do
    guard (svc.trim_space token == "") Error.unauthorized
    found ← attempt (get_api_key_by_token (svc.trim_space token))
    authenticated found

  abbrev pub disabled_key : ApiKey → Time → ApiKey
  disabled_key key now = record key { status = ApiKeyStatus.disabled; updated_at = now }

  abbrev pub disable_found : String → Time → ApiKey → Op ApiKey
  disable_found actor now key = do
    guard (not (is_active key)) Error.invalid_transition
    let next = disabled_key key now
    repo (Repository.update_api_key_if_status next ApiKeyStatus.active)
    create_audit_event svc actor "api_key.disabled" "api_key" key.id now
        (add_status_transition (api_key_audit_fields hashes next) "active" "disabled")
    return next

  unfoldable pub disable_api_key : String → String → Op ApiKey
  disable_api_key actor id = do
    guard (is_blank svc id) Error.invalid_request
    now ← clock_now svc.environment
    in_tx (do key ← repo (Repository.get_api_key id); disable_found actor now key)

  abbrev pub new_key : String → String → Time → CreateApiKeyRequest → ApiKey
  new_key id token now req = record {
    id = id;
    name = svc.trim_space req.name;
    token_hash = hash_api_key_token_with_pepper token hashes.api_key_pepper;
    status = ApiKeyStatus.active;
    actor = svc.trim_space req.actor;
    scopes = req.scopes;
    expires_at = req.expires_at;
    last_used_at = zero_time;
    created_at = now;
    updated_at = now;
  }

  -- generateAPIKeyToken is the argument `token`; `none` is its error.
  unfoldable pub create_api_key :
      String → CreateApiKeyRequest → Option String → Op (ApiKey × String)
  create_api_key actor req token = do
    guard (is_blank svc req.name || is_blank svc req.actor || is_empty req.scopes)
        Error.invalid_request
    lift (validate_api_key_scopes req.scopes)
    now ← clock_now svc.environment
    guard (not (is_zero_time req.expires_at) && not (after req.expires_at now))
        Error.invalid_request
    made ← lift (or_fail token (Error.other_error "rand"))
    id ← fresh_id svc.environment
    let key = new_key id made now req
    in_tx (do
      repo (Repository.create_api_key key)
      create_audit_event svc actor "api_key.created" "api_key" key.id now
          (api_key_audit_fields hashes key))
    return (key, made)

  abbrev pub rotated_key : ApiKey → String → String → Time → ApiKey
  rotated_key old id token now = record {
    id = id;
    name = old.name;
    token_hash = hash_api_key_token_with_pepper token hashes.api_key_pepper;
    status = ApiKeyStatus.active;
    actor = old.actor;
    scopes = old.scopes;
    expires_at = old.expires_at;
    last_used_at = zero_time;
    created_at = now;
    updated_at = now;
  }

  abbrev pub rotate_found : String → String → Time → ApiKey → Op (ApiKey × String)
  rotate_found actor token now old = do
    guard (not (is_active old) || key_expired old now) Error.invalid_transition
    repo (Repository.update_api_key_if_status (disabled_key old now) ApiKeyStatus.active)
    id ← fresh_id svc.environment
    let key = rotated_key old id token now
    repo (Repository.create_api_key key)
    create_audit_event svc actor "api_key.rotated" "api_key" key.id now (
        ("rotated_from_api_key_id", old.id)
        ∷ add_status_transition (api_key_audit_fields hashes key) "active" "active")
    return (key, token)

  unfoldable pub rotate_api_key : String → String → Option String → Op (ApiKey × String)
  rotate_api_key actor id token = do
    guard (is_blank svc id) Error.invalid_request
    made ← lift (or_fail token (Error.other_error "rand"))
    now ← clock_now svc.environment
    in_tx (do old ← repo (Repository.get_api_key id); rotate_found actor made now old)
