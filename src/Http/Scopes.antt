-- ===== src/Http/Scopes.antt =====
-- httpapi/server.go: which requests need no API key, the scope that the others need, and the keys that
-- have it. strings.HasSuffix, strings.Split and strings.Trim are arguments.
pub mod Authenticated
use text.Mathlib.Text.{starts_with}
use ano_pki_community.Common.{
  String, ℕ, ◌≡◌, refl, leb, any, ◌==◌, ◌&&◌, ◌||◌, Bool, true, false, not, Option, none, some,
  List, [], ◌∷◌, is_yes, if◌then◌else◌,
}
use ano_pki_community.Domain.{ApiKey, ApiKeyScope, ApiKeyScope-discrete}

-- What the routes use of the package strings: HasSuffix; the parts of the path without its slashes at
-- the ends; TrimSpace; and the rest of a text behind a prefix that it has.
pub record Texts : Type 0 where
  pub has_suffix : String → String → Bool
  pub path_parts : String → List String
  pub trim_space : String → String
  pub trim_prefix : String → String → String

unfoldable pub is_public_acme_protocol_endpoint : String → String → Bool
is_public_acme_protocol_endpoint method path =
    (method == "GET" && path == "/acme/directory")
    || ((method == "HEAD" || method == "GET") && path == "/acme/new-nonce")
    || (method == "POST"
        && (path == "/acme/new-account"
            || path == "/acme/new-order"
            || path == "/acme/key-change"
            || path == "/acme/revoke-cert"))
    || (method == "POST" && starts_with path "/acme/account/")
    || (method == "GET" && (starts_with path "/acme/order/" || starts_with path "/acme/authz/"))
    || (method == "POST"
        && (starts_with path "/acme/order/"
            || starts_with path "/acme/authz/"
            || starts_with path "/acme/challenge/"
            || starts_with path "/acme/cert/"))
    || (method == "GET" && starts_with path "/acme/cert/")

-- Three parts, of an issuer's CRL.
abbrev is_issuer_crl : List String → Bool
is_issuer_crl (a ∷ b ∷ c ∷ []) = a == "issuers" && not (b == "") && c == "crl"
is_issuer_crl parts = false

unfoldable pub is_public_endpoint : Texts → String → String → Bool
is_public_endpoint texts method path =
    (method == "POST" && path == "/ocsp")
    || is_public_acme_protocol_endpoint method path
    || (method == "GET" && starts_with path "/crls/" && not (texts.trim_prefix path "/crls/" == ""))
    || (method == "GET"
        && starts_with path "/issuers/"
        && texts.has_suffix path "/crl"
        && is_issuer_crl (texts.path_parts path))

-- requiredScope has the texts of the scopes of a key.
unfoldable pub required_scope_for_request : String → String → ApiKeyScope
required_scope_for_request method path =
    if path == "/debug/vars"
      || starts_with path "/api-keys"
      || starts_with path "/outbox/"
      || starts_with path "/audit-events"
      || starts_with path "/operator/"
    then ApiKeyScope.operator
    else if method == "POST" && path == "/certificates/expiration-scan"
    then ApiKeyScope.operator
    else if method == "GET"
    then ApiKeyScope.read
    else ApiKeyScope.write

abbrev is_scope : ApiKeyScope → ApiKeyScope → Bool
is_scope scope other = is_yes (ApiKeyScope-discrete scope other)

-- The body of the loop of apiKeyAllowsScope.
unfoldable pub scope_allows : ApiKeyScope → ApiKeyScope → Bool
scope_allows scope required =
    is_scope scope ApiKeyScope.operator
    || (is_scope required ApiKeyScope.read && is_scope scope ApiKeyScope.write)
    || is_scope scope required

unfoldable pub scopes_allow : List ApiKeyScope → ApiKeyScope → Bool
scopes_allow [] required = false
scopes_allow (scope ∷ scopes) required = scope_allows scope required || scopes_allow scopes required

unfoldable pub api_key_allows_scope : ApiKey → ApiKeyScope → Bool
api_key_allows_scope key required = scopes_allow key.scopes required

-- `none` is the `false` of a header without a token.
unfoldable pub bearer_token : Texts → String → Option String
bearer_token texts header =
    if not (starts_with header "Bearer ")
    then none
    else (let token = texts.trim_space (texts.trim_prefix header "Bearer ") in
        if token == "" then none else some token)

-- The scopes in order.
abbrev pub rank : ApiKeyScope → ℕ
rank ApiKeyScope.read = 0
rank ApiKeyScope.write = 1
rank ApiKeyScope.operator = 2

scope_allows-rank :
    (scope required : ApiKeyScope) → scope_allows scope required ≡ leb (rank required) (rank scope)
unfolding scope_allows ApiKeyScope-discrete
scope_allows-rank ApiKeyScope.read ApiKeyScope.read = refl
scope_allows-rank ApiKeyScope.read ApiKeyScope.write = refl
scope_allows-rank ApiKeyScope.read ApiKeyScope.operator = refl
scope_allows-rank ApiKeyScope.write ApiKeyScope.read = refl
scope_allows-rank ApiKeyScope.write ApiKeyScope.write = refl
scope_allows-rank ApiKeyScope.write ApiKeyScope.operator = refl
scope_allows-rank ApiKeyScope.operator ApiKeyScope.read = refl
scope_allows-rank ApiKeyScope.operator ApiKeyScope.write = refl
scope_allows-rank ApiKeyScope.operator ApiKeyScope.operator = refl

scopes_allow-rank :
    (scopes : List ApiKeyScope) (required : ApiKeyScope)
    → scopes_allow scopes required ≡ any (λ scope. leb (rank required) (rank scope)) scopes
unfolding scopes_allow
scopes_allow-rank [] required = refl
scopes_allow-rank (scope ∷ scopes) required =
    rw (scope_allows-rank scope required, scopes_allow-rank scopes required) refl

-- A key is allowed a request exactly if one of its scopes stands at least as high as the required one
-- in the order read, write, operator.
pub api_key_allows_scope-rank :
    (key : ApiKey) (required : ApiKeyScope)
    → api_key_allows_scope key required ≡ any (λ scope. leb (rank required) (rank scope)) key.scopes
unfolding api_key_allows_scope
api_key_allows_scope-rank key required = scopes_allow-rank key.scopes required
