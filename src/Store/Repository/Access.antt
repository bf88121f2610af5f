-- ===== src/Store/Repository/Access.antt =====
-- memory.go: API keys and the ACME resources, as methods of MemoryStore. Those of memoryTx have the same bodies.
use ano_pki_community.Common.{String, List, lookup, insert, ok, Error, or_fail}
use ano_pki_community.Domain.{
  ApiKey, ApiKeyStatus, AcmeAccount, AcmeAccountStatus, AcmeOrder, AcmeOrderStatus,
  AcmeAuthorization, AcmeAuthorizationStatus, AcmeChallenge, AcmeChallengeStatus,
}
use ano_pki_community.Store.Access as Access
use ano_pki_community.Store.State.{Repo, read, written}

unfoldable pub create_api_key : ApiKey → Repo (Unit {0})
create_api_key key s = (ok tt, record s { api_keys = insert key.id key s.api_keys })

unfoldable pub get_api_key : String → Repo ApiKey
get_api_key id = read λ s. or_fail (lookup id s.api_keys) Error.api_key_not_found

unfoldable pub get_api_key_by_token_hash : String → Repo ApiKey
get_api_key_by_token_hash token_hash = read λ s. Access.api_key_by_token_hash s.api_keys token_hash

unfoldable pub list_api_keys : Repo (List ApiKey)
list_api_keys = read λ s. ok (Access.list_api_keys s.api_keys)

unfoldable pub update_api_key_if_status : ApiKey → ApiKeyStatus → Repo (Unit {0})
update_api_key_if_status key current_status s =
    written s (λ m. record s { api_keys = m })
      (Access.update_api_key_if_status s.api_keys key current_status)

unfoldable pub create_acme_account : AcmeAccount → Repo (Unit {0})
create_acme_account account s =
    written s (λ m. record s { acme_accounts = m })
      (Access.create_acme_account s.acme_accounts account)

unfoldable pub get_acme_account : String → Repo AcmeAccount
get_acme_account id = read λ s. or_fail (lookup id s.acme_accounts) Error.acme_account_not_found

unfoldable pub list_acme_accounts : Repo (List AcmeAccount)
list_acme_accounts = read λ s. ok (Access.list_acme_accounts s.acme_accounts)

unfoldable pub update_acme_account_if_status : AcmeAccount → AcmeAccountStatus → Repo (Unit {0})
update_acme_account_if_status account current_status s =
    written s (λ m. record s { acme_accounts = m })
      (Access.update_acme_account_if_status s.acme_accounts account current_status)

unfoldable pub create_acme_order : AcmeOrder → Repo (Unit {0})
create_acme_order order s = (ok tt, record s { acme_orders = insert order.id order s.acme_orders })

unfoldable pub get_acme_order : String → Repo AcmeOrder
get_acme_order id = read λ s. or_fail (lookup id s.acme_orders) Error.acme_order_not_found

unfoldable pub list_acme_orders_by_account : String → Repo (List AcmeOrder)
list_acme_orders_by_account account_id =
    read λ s. ok (Access.list_acme_orders_by_account s.acme_orders account_id)

unfoldable pub update_acme_order_if_status : AcmeOrder → AcmeOrderStatus → Repo (Unit {0})
update_acme_order_if_status order current_status s =
    written s (λ m. record s { acme_orders = m })
      (Access.update_acme_order_if_status s.acme_orders order current_status)

unfoldable pub create_acme_authorization : AcmeAuthorization → Repo (Unit {0})
create_acme_authorization authorization s =
    (ok tt, record s { acme_authzs = insert authorization.id authorization s.acme_authzs })

unfoldable pub get_acme_authorization : String → Repo AcmeAuthorization
get_acme_authorization id =
    read λ s. or_fail (lookup id s.acme_authzs) Error.acme_authorization_not_found

unfoldable pub list_acme_authorizations_by_order : String → Repo (List AcmeAuthorization)
list_acme_authorizations_by_order order_id =
    read λ s. ok (Access.list_acme_authorizations_by_order s.acme_authzs order_id)

unfoldable pub update_acme_authorization_if_status :
    AcmeAuthorization → AcmeAuthorizationStatus → Repo (Unit {0})
update_acme_authorization_if_status authorization current_status s =
    written s (λ m. record s { acme_authzs = m })
      (Access.update_acme_authorization_if_status s.acme_authzs authorization current_status)

unfoldable pub create_acme_challenge : AcmeChallenge → Repo (Unit {0})
create_acme_challenge challenge s =
    (ok tt, record s { acme_challenges = insert challenge.id challenge s.acme_challenges })

unfoldable pub get_acme_challenge : String → Repo AcmeChallenge
get_acme_challenge id =
    read λ s. or_fail (lookup id s.acme_challenges) Error.acme_challenge_not_found

unfoldable pub list_acme_challenges_by_authorization : String → Repo (List AcmeChallenge)
list_acme_challenges_by_authorization authorization_id =
    read λ s. ok (Access.list_acme_challenges_by_authorization s.acme_challenges authorization_id)

unfoldable pub update_acme_challenge_if_status :
    AcmeChallenge → AcmeChallengeStatus → Repo (Unit {0})
update_acme_challenge_if_status challenge current_status s =
    written s (λ m. record s { acme_challenges = m })
      (Access.update_acme_challenge_if_status s.acme_challenges challenge current_status)
