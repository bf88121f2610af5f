-- ===== src/Examples/Http.antt =====
-- Nonces, rate limits and API keys at concrete inputs.
use ano_pki_community.Common.{
  ◌≢◌, String, increment, ap, ◌≡◌, ◌≤◌, refl, arith, true, false, some, [], ◌∷◌, length, min,
  lookup, insert, values, ok, eq_iff, any, leb,
}
use ano_pki_community.Domain.{
  ApiKey, ApiKeyStatus, ApiKeyStatus-discrete, ApiKeyScope, ApiKeyScope-discrete,
}
use ano_pki_community.Audit.Hex.{is_audit_hash}
use ano_pki_community.Audit.Hash.{
  audit_event_hash, canonical_audit_metadata, hash_payload, with_audit_event_hash,
}
use ano_pki_community.Audit.Verify.{
  audit_integrity_error, verify_audit_state, verify_audit_events, checkpoint_failure, verify_loop,
  empty_audit_chain_state, event_failure,
}
use ano_pki_community.Audit.Memory.{append_memory_audit_event}
use ano_pki_community.Store.State.{new_memory_store, within_tx, written}
use ano_pki_community.Store.Access as Access
use ano_pki_community.Store.Repository as Repository
use ano_pki_community.Lifecycle.World.{Op, World, in_tx, bound, guard}
use ano_pki_community.Lifecycle.Services.{create_audit_event}
use ano_pki_community.Lifecycle.Services.ApiKeys.{
  KeyHashes, authenticate_api_key, get_api_key_by_token, hash_api_key_token,
  hash_api_key_token_with_pepper, rotate_api_key, rotated_key,
}
use ano_pki_community.Lifecycle.Services.ApiKeys.Rotation.{IsRotated, rotate_api_key_lem}
use ano_pki_community.Http.Nonces.{NonceMap, consume, issue, evict_oldest}
use ano_pki_community.Http.Nonces.Once.{consume_all, nonce_consumed_once}
use ano_pki_community.Http.Nonces.Size.{issue-length}
use ano_pki_community.Http.RateLimits.{RateConfig}
use ano_pki_community.Http.RateLimits.Windows.{BeginsWindow, passed_of, rate_limit_window_exact}
use ano_pki_community.Http.Scopes.{
  Texts, is_public_endpoint, is_public_acme_protocol_endpoint, bearer_token,
  required_scope_for_request, api_key_allows_scope, scopes_allow, scope_allows, rank,
  api_key_allows_scope-rank,
}
use ano_pki_community.Http.Scopes.Authenticated.{
  AuthMode, Request, IsLetThrough, authenticate_request, authenticate_request-IsLetThrough,
}
use ano_pki_community.Examples.Services.{service}

abbrev nonces : NonceMap
nonces = ("old", record { issued_at = 3; expires_at = 9 }) ∷ []

other_nonce : ◌≢◌ {A = String} "old" "n"
other_nonce e = ground (arith, eq_iff "old" "n", e)

nonce_consumed_once_example :
    let (found, left) =
      consume "n" 20 (consume_all (("old", 12) ∷ []) (issue 1 "n" 10 30 nonces)) in
    (found ≡ true) × ((consume "n" 22 (consume_all (("old", 21) ∷ []) left)).0 ≡ false)
nonce_consumed_once_example =
    nonce_consumed_once 1 "n" 10 30 20 22 (("old", 12) ∷ []) (("old", 21) ∷ []) nonces
      ((other_nonce, omega arith), tt) (omega arith)

issue-length_example :
    (length (evict_oldest 1 nonces) ≤ 1) × (length (issue 1 "n" 10 30 nonces) ≤ 2)
issue-length_example = issue-length 1 "n" 10 30 nonces

abbrev config : RateConfig
config = record { rate_limit = 2; rate_limit_window = 60 }

window_begins : BeginsWindow 100 (lookup "key" [])
unfolding lookup
window_begins = tt

rate_limit_window_exact_example : passed_of config "key" (100 ∷ 110 ∷ 120 ∷ []) [] ≡ min 3 2
rate_limit_window_exact_example =
    rate_limit_window_exact config "key" 100 (110 ∷ 120 ∷ []) [] window_begins
      (omega arith, (omega arith, tt))

abbrev hashes : KeyHashes
hashes = record {
  api_key_pepper = "";
  sha256_hex = λ token. token;
  hmac_sha256_hex = λ pepper token. token;
  scopes_text = λ scopes. "";
}

abbrev texts : Texts
texts = record {
  has_suffix = λ text suffix. false;
  path_parts = λ path. path ∷ [];
  trim_space = λ text. text;
  trim_prefix = λ text prefix. "secret";
}

abbrev key : ApiKey
key = record {
  id = "key-1";
  name = "writer";
  token_hash = "sha256:secret";
  status = ApiKeyStatus.active;
  actor = "alice";
  scopes = ApiKeyScope.write ∷ [];
  expires_at = 500;
  last_used_at = 0;
  created_at = 1;
  updated_at = 1;
}

abbrev key_world : World
key_world = record {
  store = record new_memory_store { api_keys = ("key-1", key) ∷ [] };
  readings = 0;
  ids = 0;
}

abbrev request : Request
request = record {
  method = "POST";
  path = "/identities";
  authorization = "Bearer secret";
  x_actor = "";
}

not_public : is_public_endpoint texts "POST" "/identities" ≡ false
unfolding is_public_endpoint is_public_acme_protocol_endpoint
not_public = refl

abbrev entrance : Op String
entrance = authenticate_request texts service hashes AuthMode.api_key request

enters : (entrance key_world).0 ≡ ok "alice"
unfolding authenticate_request is_public_endpoint is_public_acme_protocol_endpoint bearer_token
    authenticate_api_key get_api_key_by_token hash_api_key_token bound guard written lookup insert
    values Repository.get_api_key_by_token_hash Repository.update_api_key_if_status
    Access.api_key_by_token_hash Access.first_with_hash Access.update_api_key_if_status
    ApiKeyStatus-discrete ApiKeyScope-discrete required_scope_for_request api_key_allows_scope
    scopes_allow scope_allows new_memory_store
enters = refl

authenticate_request-IsLetThrough_example :
    IsLetThrough texts service hashes request key_world "alice"
authenticate_request-IsLetThrough_example =
    authenticate_request-IsLetThrough texts service hashes request "alice" key_world
      (entrance key_world).1 not_public (ap (λ r. (r, (entrance key_world).1)) enters)

abbrev rotation : Op (ApiKey × String)
rotation = rotate_api_key service hashes "operator" "key-1" (some "fresh")

abbrev fresh_key : ApiKey
fresh_key = rotated_key service hashes key "id" "fresh" 100

key_stored : lookup "key-1" key_world.store.api_keys ≡ some key
unfolding lookup
key_stored = refl

rotates : (rotation key_world).0 ≡ ok (fresh_key, "fresh")
unfolding rotate_api_key Repository.get_api_key Repository.create_api_key
    Repository.update_api_key_if_status Access.update_api_key_if_status ApiKeyStatus-discrete
    hash_api_key_token hash_api_key_token_with_pepper bound guard written in_tx within_tx lookup
    insert new_memory_store create_audit_event Repository.create_audit_event
    append_memory_audit_event audit_integrity_error verify_audit_state verify_audit_events
    checkpoint_failure verify_loop audit_event_hash canonical_audit_metadata hash_payload
    with_audit_event_hash is_audit_hash empty_audit_chain_state event_failure increment
rotates = refl

other_id : service.environment.new_id 0 ≢ key.id
other_id e = ground (arith, eq_iff "id" "key-1", e)

rotate_api_key_lem_example :
    IsRotated service hashes key "id" "fresh" 100 (fresh_key, "fresh") (rotation key_world).1
rotate_api_key_lem_example =
    rotate_api_key_lem service hashes "operator" "fresh" key key_world (rotation key_world).1
      (fresh_key, "fresh") key_stored other_id (ap (λ r. (r, (rotation key_world).1)) rotates)

api_key_allows_scope-rank_example :
    api_key_allows_scope key ApiKeyScope.read
    ≡ any (λ scope. leb (rank ApiKeyScope.read) (rank scope)) key.scopes
api_key_allows_scope-rank_example = api_key_allows_scope-rank key ApiKeyScope.read
