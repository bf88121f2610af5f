-- ===== src/Lifecycle/Services/Acme/Orders.antt =====
-- service.go: the authorizations and challenges of a new order, the update of an account, and an order
-- that is made invalid.
use ano_pki_community.Common.{
  String, Bool, List, [], ◌∷◌, ◌&&◌, ◌||◌, ◌+◌, not, if◌then◌else◌, Time, zero_time, Error,
}
use ano_pki_community.Domain.{
  AcmeAccount, AcmeAccountStatus, AcmeOrder, AcmeOrderStatus, AcmeAuthorization,
  AcmeAuthorizationStatus, AcmeChallenge, AcmeChallengeStatus, AcmeChallengeType,
}
use ano_pki_community.Store.Repository as Repository
use ano_pki_community.Lifecycle.World.{
  Op, return, ◌>>=◌, ◌>>◌, guard, repo, clock_now, fresh_id, in_tx,
}
use ano_pki_community.Lifecycle.Services.{Service, audit_fields, is_blank, create_audit_event}
use ano_pki_community.Lifecycle.Services.Acme.{account_is, default_acme_authorization_lifetime}

pub record UpdateAcmeAccountRequest : Type 0 where
  pub contacts : List String
  pub update_contacts : Bool
  pub deactivate : Bool

abbrev new_authorization : String → String → String → String → Time → AcmeAuthorization
new_authorization id order_id identifier_type identifier_value now = record {
  id = id;
  order_id = order_id;
  identifier_type = identifier_type;
  identifier_value = identifier_value;
  status = AcmeAuthorizationStatus.pending;
  expires_at = now + default_acme_authorization_lifetime;
  validation_reuse_expires_at = zero_time;
  created_at = now;
  updated_at = now;
}

abbrev new_challenge : String → String → AcmeChallengeType → String → Time → AcmeChallenge
new_challenge id authorization_id type token now = record {
  id = id;
  authorization_id = authorization_id;
  type = type;
  token = token;
  status = AcmeChallengeStatus.pending;
  validated_at = zero_time;
  created_at = now;
  updated_at = now;
}

abbrev pub updated_account : AcmeAccount → UpdateAcmeAccountRequest → Time → AcmeAccount
updated_account a req now = record a {
  contacts = if req.update_contacts then req.contacts else a.contacts;
  status = if req.deactivate then AcmeAccountStatus.deactivated else a.status;
  updated_at = now;
}

module _ (svc : Service) where
  unfoldable pub create_acme_authorization :
      String → String → String → AcmeChallengeType → Time → Op (Unit {0})
  create_acme_authorization order_id identifier_type identifier_value challenge_type now = do
    id ← fresh_id svc.environment
    repo (
        Repository.create_acme_authorization
          (new_authorization id order_id identifier_type identifier_value now))
    challenge_id ← fresh_id svc.environment
    token ← fresh_id svc.environment
    repo (Repository.create_acme_challenge (new_challenge challenge_id id challenge_type token now))

  -- One of the two loops of createACMEAuthorizations.
  unfoldable pub create_each : String → String → List String → Time → Op (Unit {0})
  create_each order_id identifier_type [] now = return tt
  create_each order_id identifier_type (value ∷ identifiers) now = do
    create_acme_authorization order_id identifier_type value AcmeChallengeType.http01 now
    create_each order_id identifier_type identifiers now

  unfoldable pub create_acme_authorizations : AcmeOrder → Time → Op (Unit {0})
  create_acme_authorizations order now = do
    create_each order.id "dns" order.requested_dns_names now
    create_each order.id "ip" order.requested_ip_addresses now

  abbrev pub update_valid : String → UpdateAcmeAccountRequest → Time → AcmeAccount → Op AcmeAccount
  update_valid actor req now account = do
    guard (account_is AcmeAccountStatus.deactivated account) Error.acme_account_deactivated
    guard (not (account_is AcmeAccountStatus.valid account)) Error.invalid_transition
    let next = updated_account account req now
    repo (Repository.update_acme_account_if_status next AcmeAccountStatus.valid)
    create_audit_event svc actor
        (if req.deactivate then "acme.account.deactivated" else "acme.account.updated")
        "acme_account" account.id now (audit_fields (("acme_account_id", account.id) ∷ []))
    return next

  unfoldable pub update_acme_account : String → String → UpdateAcmeAccountRequest → Op AcmeAccount
  update_acme_account actor account_id req = do
    guard (is_blank svc account_id || (not req.update_contacts && not req.deactivate))
        Error.invalid_request
    now ← clock_now svc.environment
    in_tx (do
      account ← repo (Repository.get_acme_account account_id)
      update_valid actor req now account)

  unfoldable pub invalidate_acme_order : String → AcmeOrder → Op (Unit {0})
  invalidate_acme_order actor order = do
    now ← clock_now svc.environment
    in_tx (do
      repo (
          Repository.update_acme_order_if_status
            (record order { status = AcmeOrderStatus.invalid; updated_at = now })
            AcmeOrderStatus.ready)
      create_audit_event svc actor "acme.order.invalid" "acme_order" order.id now
          (audit_fields (("acme_account_id", order.account_id) ∷ ("acme_order_id", order.id) ∷ [])))
