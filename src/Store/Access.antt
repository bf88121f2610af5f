-- ===== src/Store/Access.antt =====
-- memory.go: the maps of notification endpoints, certificate profiles, API keys, and of the ACME
-- accounts, orders, authorizations and challenges.
pub mod Thumbprints
pub mod Transitions
use ano_pki_community.Common.{
  String, Bool, Option, none, some, List, [], ◌∷◌, ◌==◌, ◌&&◌, ◌||◌, not, if◌then◌else◌, is_yes,
  GoMap, lookup, insert, values, select, any, sort_slice, earlier, equal, Time, Result, ok, Error,
  or_fail, ◌>>=◌, ◌>>◌, reject_if,
}
use ano_pki_community.Domain.{
  NotificationEndpoint, NotificationEndpointStatus, NotificationEndpointStatus-discrete,
  CertificateProfile, ApiKey, ApiKeyStatus, ApiKeyStatus-discrete, AcmeAccount, AcmeAccountStatus,
  AcmeAccountStatus-discrete, AcmeOrder, AcmeOrderStatus, AcmeOrderStatus-discrete,
  AcmeAuthorization, AcmeAuthorizationStatus, AcmeAuthorizationStatus-discrete, AcmeChallenge,
  AcmeChallengeStatus, AcmeChallengeStatus-discrete,
}

unfoldable pub update_notification_endpoint_if_status :
    GoMap NotificationEndpoint
    → NotificationEndpoint
    → NotificationEndpointStatus
    → Result (GoMap NotificationEndpoint)
update_notification_endpoint_if_status endpoints endpoint current_status = do
  current ← or_fail (lookup endpoint.id endpoints) Error.notification_endpoint_not_found
  reject_if (not (is_yes (NotificationEndpointStatus-discrete current.status current_status)))
      Error.invalid_transition
  ok (insert endpoint.id endpoint endpoints)

unfoldable pub list_notification_endpoints : GoMap NotificationEndpoint → List NotificationEndpoint
list_notification_endpoints endpoints =
    sort_slice (λ a b. earlier a.created_at a.id b.created_at b.id) (values endpoints)

unfoldable pub update_certificate_profile_issuer_if_current :
    GoMap CertificateProfile
    → CertificateProfile
    → String
    → Time
    → Result (GoMap CertificateProfile)
update_certificate_profile_issuer_if_current profiles profile current_issuer_id current_updated_at =
    do
      stored ← or_fail (lookup profile.id profiles) Error.certificate_profile_not_found
      reject_if
          (not (stored.issuer_id == current_issuer_id)
            || not (equal stored.updated_at current_updated_at))
          Error.invalid_transition
      ok (insert profile.id profile profiles)

unfoldable pub list_api_keys : GoMap ApiKey → List ApiKey
list_api_keys keys = sort_slice (λ a b. earlier a.created_at a.id b.created_at b.id) (values keys)

unfoldable pub update_api_key_if_status :
    GoMap ApiKey → ApiKey → ApiKeyStatus → Result (GoMap ApiKey)
update_api_key_if_status keys key current_status = do
  current ← or_fail (lookup key.id keys) Error.api_key_not_found
  reject_if (not (is_yes (ApiKeyStatus-discrete current.status current_status)))
      Error.invalid_transition
  ok (insert key.id key keys)

unfoldable pub first_with_hash : String → List ApiKey → Option ApiKey
first_with_hash token_hash [] = none
first_with_hash token_hash (k ∷ ks) =
    if k.token_hash == token_hash then some k else first_with_hash token_hash ks

unfoldable pub api_key_by_token_hash : GoMap ApiKey → String → Result ApiKey
unfolding first_with_hash
api_key_by_token_hash keys token_hash =
    or_fail (first_with_hash token_hash (values keys)) Error.api_key_not_found

abbrev pub takes_thumbprint_of : AcmeAccount → AcmeAccount → Bool
takes_thumbprint_of candidate account =
    not (account.id == candidate.id) && account.key_thumbprint == candidate.key_thumbprint

unfoldable pub ensure_acme_account_thumbprint_available :
    GoMap AcmeAccount → AcmeAccount → Result (Unit {0})
ensure_acme_account_thumbprint_available accounts candidate =
    if candidate.key_thumbprint == ""
    then ok tt
    else reject_if (any (takes_thumbprint_of candidate) (values accounts)) Error.invalid_transition

-- The body of CreateACMEAccount.
unfoldable pub create_acme_account : GoMap AcmeAccount → AcmeAccount → Result (GoMap AcmeAccount)
create_acme_account accounts account = do
  ensure_acme_account_thumbprint_available accounts account
  ok (insert account.id account accounts)

unfoldable pub update_acme_account_if_status :
    GoMap AcmeAccount → AcmeAccount → AcmeAccountStatus → Result (GoMap AcmeAccount)
update_acme_account_if_status accounts account current_status = do
  current ← or_fail (lookup account.id accounts) Error.acme_account_not_found
  reject_if (not (is_yes (AcmeAccountStatus-discrete current.status current_status)))
      Error.invalid_transition
  ensure_acme_account_thumbprint_available accounts account
  ok (insert account.id account accounts)

unfoldable pub list_acme_accounts : GoMap AcmeAccount → List AcmeAccount
list_acme_accounts accounts =
    sort_slice (λ a b. earlier a.created_at a.id b.created_at b.id) (values accounts)

unfoldable pub update_acme_order_if_status :
    GoMap AcmeOrder → AcmeOrder → AcmeOrderStatus → Result (GoMap AcmeOrder)
update_acme_order_if_status orders order current_status = do
  current ← or_fail (lookup order.id orders) Error.acme_order_not_found
  reject_if (not (is_yes (AcmeOrderStatus-discrete current.status current_status)))
      Error.invalid_transition
  ok (insert order.id order orders)

unfoldable pub list_acme_orders_by_account : GoMap AcmeOrder → String → List AcmeOrder
list_acme_orders_by_account orders account_id =
    sort_slice (λ a b. earlier a.created_at a.id b.created_at b.id)
      (select (λ x. x.account_id == account_id) (values orders))

unfoldable pub update_acme_authorization_if_status :
    GoMap AcmeAuthorization
    → AcmeAuthorization
    → AcmeAuthorizationStatus
    → Result (GoMap AcmeAuthorization)
update_acme_authorization_if_status authorizations authorization current_status = do
  current ← or_fail (lookup authorization.id authorizations) Error.acme_authorization_not_found
  reject_if (not (is_yes (AcmeAuthorizationStatus-discrete current.status current_status)))
      Error.invalid_transition
  ok (insert authorization.id authorization authorizations)

unfoldable pub list_acme_authorizations_by_order :
    GoMap AcmeAuthorization → String → List AcmeAuthorization
list_acme_authorizations_by_order authorizations order_id =
    sort_slice (λ a b. earlier a.created_at a.id b.created_at b.id)
      (select (λ x. x.order_id == order_id) (values authorizations))

unfoldable pub update_acme_challenge_if_status :
    GoMap AcmeChallenge → AcmeChallenge → AcmeChallengeStatus → Result (GoMap AcmeChallenge)
update_acme_challenge_if_status challenges challenge current_status = do
  current ← or_fail (lookup challenge.id challenges) Error.acme_challenge_not_found
  reject_if (not (is_yes (AcmeChallengeStatus-discrete current.status current_status)))
      Error.invalid_transition
  ok (insert challenge.id challenge challenges)

unfoldable pub list_acme_challenges_by_authorization :
    GoMap AcmeChallenge → String → List AcmeChallenge
list_acme_challenges_by_authorization challenges authorization_id =
    sort_slice (λ a b. earlier a.created_at a.id b.created_at b.id)
      (select (λ x. x.authorization_id == authorization_id) (values challenges))
