-- ===== src/Lifecycle/Services/Acme.antt =====
-- lifecycle/service.go: ACME orders, their authorizations and challenges: the tests on their statuses,
-- and how a completed challenge makes its authorization valid and its order ready.
pub mod Ceilings
pub mod Challenges
pub mod Orders
pub mod Steps
pub mod Ready
pub mod Polls
pub mod Completion
pub mod Validation
use ano_pki_community.Common.{
  String, Bool, true, false, List, [], ◌∷◌, ◌++◌, ◌==◌, ◌&&◌, ◌||◌, ◌+◌, ◌*◌, not, is_yes, any,
  if◌then◌else◌, Time, Duration, zero_time, is_zero_time, after, hour, Result, ok, err, Error,
}
use ano_pki_community.Domain.{
  AcmeAccount, AcmeAccountStatus, AcmeAccountStatus-discrete, AcmeOrder, AcmeOrderStatus,
  AcmeOrderStatus-discrete, AcmeAuthorization, AcmeAuthorizationStatus,
  AcmeAuthorizationStatus-discrete, AcmeChallenge, AcmeChallengeStatus,
  AcmeChallengeStatus-discrete, AcmeChallengeType, AcmeChallengeType-discrete,
}
use ano_pki_community.Store.Repository as Repository
use ano_pki_community.Lifecycle.World.{
  World, Op, return, fail, ◌>>=◌, ◌>>◌, guard, repo, clock_now, fresh_id, in_tx,
}
use ano_pki_community.Lifecycle.Services.{
  Service, Fields, audit_fields, is_blank, create_audit_event,
}
use ano_pki_community.Lifecycle.Services.Acme.Ceilings.{public_tls_validation_reuse_ceiling}

abbrev pub default_acme_authorization_lifetime : Duration
default_acme_authorization_lifetime = 24 * hour

abbrev challenge_type_text : AcmeChallengeType → String
challenge_type_text AcmeChallengeType.http01 = "http-01"
challenge_type_text AcmeChallengeType.dns01 = "dns-01"

abbrev pub challenge_is : AcmeChallengeStatus → AcmeChallenge → Bool
challenge_is status c = is_yes (AcmeChallengeStatus-discrete c.status status)

abbrev pub authorization_is : AcmeAuthorizationStatus → AcmeAuthorization → Bool
authorization_is status a = is_yes (AcmeAuthorizationStatus-discrete a.status status)

abbrev pub order_is : AcmeOrderStatus → AcmeOrder → Bool
order_is status o = is_yes (AcmeOrderStatus-discrete o.status status)

abbrev pub account_is : AcmeAccountStatus → AcmeAccount → Bool
account_is status a = is_yes (AcmeAccountStatus-discrete a.status status)

-- The challenge waits for its validation.
abbrev pub is_open : AcmeChallenge → Bool
is_open c =
    challenge_is AcmeChallengeStatus.pending c || challenge_is AcmeChallengeStatus.processing c

abbrev pub acme_expired : Time → Time → Bool
acme_expired expires_at now = not (is_zero_time expires_at) && not (after expires_at now)

abbrev add_time : Service → String → Time → Fields → Fields
add_time svc name t fields =
    if is_zero_time t then fields else fields ++ (name, svc.format_time t) ∷ []

abbrev pub acme_challenge_audit_fields : Service → AcmeChallenge → AcmeAuthorization → Fields
acme_challenge_audit_fields svc challenge authorization =
    add_time svc "validation_reuse_expires_at" authorization.validation_reuse_expires_at (
      add_time svc "validated_at" challenge.validated_at (
        audit_fields (
          ("acme_challenge_id", challenge.id)
          ∷ ("acme_authorization_id", authorization.id)
          ∷ ("acme_order_id", authorization.order_id)
          ∷ ("identifier_type", authorization.identifier_type)
          ∷ ("identifier_value", authorization.identifier_value)
          ∷ ("challenge_type", challenge_type_text challenge.type)
          ∷ ("validation_method", challenge_type_text challenge.type)
          ∷ [])))

abbrev pub valid_authorization : AcmeAuthorization → Time → AcmeAuthorization
valid_authorization a now = record a {
  status = AcmeAuthorizationStatus.valid;
  validation_reuse_expires_at = now + public_tls_validation_reuse_ceiling now;
  updated_at = now;
}

abbrev pub ready_order : AcmeOrder → Time → AcmeOrder
ready_order o now = record o { status = AcmeOrderStatus.ready; updated_at = now }

abbrev pub valid_challenge : AcmeChallenge → Time → AcmeChallenge
valid_challenge c now = record c {
  status = AcmeChallengeStatus.valid;
  validated_at = now;
  updated_at = now;
}

abbrev pub processing_challenge : AcmeChallenge → Time → AcmeChallenge
processing_challenge c now = record c { status = AcmeChallengeStatus.processing; updated_at = now }

-- `if done { return nil }`.
unfoldable pub unless : Bool → Op (Unit {0}) → Op (Unit {0})
unless true f = return tt
unless false f = f

abbrev promote_if_all_valid : AcmeOrder → Time → List AcmeAuthorization → Op (Unit {0})
promote_if_all_valid order now authorizations =
    unless (any (λ a. not (authorization_is AcmeAuthorizationStatus.valid a)) authorizations) (
      repo (Repository.update_acme_order_if_status (ready_order order now) AcmeOrderStatus.pending))

unfoldable pub promote_acme_order_if_ready : AcmeOrder → Time → Op (Unit {0})
promote_acme_order_if_ready order now = unless (not (order_is AcmeOrderStatus.pending order)) (
    repo (Repository.list_acme_authorizations_by_order order.id) >>= promote_if_all_valid order now)

abbrev pub make_valid : AcmeAuthorization → Time → Op (Unit {0})
make_valid authorization now = do
  repo (
      Repository.update_acme_authorization_if_status (valid_authorization authorization now)
        AcmeAuthorizationStatus.pending)
  order ← repo (Repository.get_acme_order authorization.order_id)
  promote_acme_order_if_ready order now

unfoldable pub promote_acme_authorization_if_ready : AcmeAuthorization → Time → Op (Unit {0})
promote_acme_authorization_if_ready authorization now = do
  challenges ← repo (Repository.list_acme_challenges_by_authorization authorization.id)
  unless (any (λ c. not (challenge_is AcmeChallengeStatus.valid c)) challenges)
      (make_valid authorization now)
