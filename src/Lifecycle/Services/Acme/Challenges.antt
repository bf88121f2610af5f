-- ===== src/Lifecycle/Services/Acme/Challenges.antt =====
-- service.go: validating an HTTP-01 challenge, completing it, and polling its authorization. The
-- verifier, which fetches the key authorization from the host, is an argument; what it answers may
-- depend on the whole history, and is true where VerifyHTTP01 returns no error.
use Prim.Native.String.{◌++◌}
use ano_pki_community.Common.{
  String, Bool, List, [], ◌∷◌, ◌==◌, ◌&&◌, ◌||◌, not, is_yes, if◌then◌else◌, Time, Error,
}
use ano_pki_community.Domain.{
  AcmeAccount, AcmeAccountStatus, AcmeOrder, AcmeOrderStatus, AcmeAuthorization,
  AcmeAuthorizationStatus, AcmeChallenge, AcmeChallengeStatus, AcmeChallengeType,
  AcmeChallengeType-discrete,
}
use ano_pki_community.Store.Repository as Repository
use ano_pki_community.Lifecycle.World.{
  World, Op, return, ◌>>=◌, ◌>>◌, guard, repo, clock_now, in_tx,
}
use ano_pki_community.Lifecycle.Services.{Service, is_blank, create_audit_event}
use ano_pki_community.Lifecycle.Services.Acme.{
  challenge_is, authorization_is, order_is, account_is, is_open, acme_expired,
  acme_challenge_audit_fields, valid_challenge, processing_challenge,
  promote_acme_authorization_if_ready,
}

-- acmeHTTP01ValidationContext.
pub record ValidationContext : Type 0 where
  pub challenge : AcmeChallenge
  pub identifier_value : String
  pub key_authorization : String

abbrev pub Http01Verifier : Type 0
Http01Verifier = World → String → String → String → Bool

abbrev pub is_http01 : AcmeChallenge → Bool
is_http01 c = is_yes (AcmeChallengeType-discrete c.type AcmeChallengeType.http01)

abbrev pub context_of : AcmeChallenge → AcmeAuthorization → AcmeAccount → ValidationContext
context_of challenge authorization account = record {
  challenge = challenge;
  identifier_value = authorization.identifier_value;
  key_authorization = challenge.token ++ "." ++ account.key_thumbprint;
}

module _ (svc : Service) where
  abbrev pub account_context : AcmeChallenge → AcmeAuthorization → AcmeOrder → Op ValidationContext
  account_context challenge authorization order = do
    now ← clock_now svc.environment
    guard (acme_expired order.expires_at now || acme_expired authorization.expires_at now)
        Error.invalid_transition
    account ← repo (Repository.get_acme_account order.account_id)
    guard (account_is AcmeAccountStatus.deactivated account) Error.acme_account_deactivated
    guard (not (account_is AcmeAccountStatus.valid account) || account.key_thumbprint == "")
        Error.invalid_request
    return (context_of challenge authorization account)

  unfoldable pub acme_http01_validation_context : String → Op ValidationContext
  acme_http01_validation_context challenge_id = do
    guard (is_blank svc challenge_id) Error.invalid_request
    challenge ← repo (Repository.get_acme_challenge challenge_id)
    guard (not (is_http01 challenge) || not (is_open challenge)) Error.invalid_transition
    authorization ← repo (Repository.get_acme_authorization challenge.authorization_id)
    guard (not (authorization_is AcmeAuthorizationStatus.pending authorization))
        Error.invalid_transition
    order ← repo (Repository.get_acme_order authorization.order_id)
    guard (not (order_is AcmeOrderStatus.pending order)) Error.invalid_transition
    account_context challenge authorization order

  abbrev pub mark_open : String → Time → AcmeChallenge → Op AcmeChallenge
  mark_open actor now challenge = do
    guard (not (is_open challenge)) Error.invalid_transition
    authorization ← repo (Repository.get_acme_authorization challenge.authorization_id)
    guard (not (authorization_is AcmeAuthorizationStatus.pending authorization))
        Error.invalid_transition
    let next = processing_challenge challenge now
    repo (Repository.update_acme_challenge_if_status next challenge.status)
    create_audit_event svc actor "acme.challenge.processing" "acme_challenge" challenge.id now
        (acme_challenge_audit_fields svc next authorization)
    return next

  unfoldable pub mark_acme_challenge_processing : String → String → Op AcmeChallenge
  mark_acme_challenge_processing actor challenge_id = do
    now ← clock_now svc.environment
    in_tx (do
      challenge ← repo (Repository.get_acme_challenge challenge_id)
      mark_open actor now challenge)

  abbrev pub audit_completed : String → Time → AcmeChallenge → AcmeAuthorization → Op AcmeChallenge
  audit_completed actor now completed authorization = do
    create_audit_event svc actor "acme.challenge.completed" "acme_challenge" completed.id now
        (acme_challenge_audit_fields svc completed authorization)
    return completed

  abbrev pub complete_open : String → Time → AcmeChallenge → Op AcmeChallenge
  complete_open actor now challenge = do
    guard (not (is_open challenge)) Error.invalid_transition
    authorization ← repo (Repository.get_acme_authorization challenge.authorization_id)
    guard (not (authorization_is AcmeAuthorizationStatus.pending authorization))
        Error.invalid_transition
    repo (
        Repository.update_acme_challenge_if_status (valid_challenge challenge now) challenge.status)
    promote_acme_authorization_if_ready authorization now
    promoted ← repo (Repository.get_acme_authorization authorization.id)
    audit_completed actor now (valid_challenge challenge now) promoted

  unfoldable pub complete_acme_challenge : String → String → Op AcmeChallenge
  complete_acme_challenge actor challenge_id = do
    guard (is_blank svc challenge_id) Error.invalid_request
    now ← clock_now svc.environment
    in_tx (do
      challenge ← repo (Repository.get_acme_challenge challenge_id)
      complete_open actor now challenge)

  module _ (verify_http01 : Http01Verifier) where
    abbrev pub after_verification : String → String → ValidationContext → Op AcmeChallenge
    after_verification actor challenge_id v w =
        if verify_http01 w v.identifier_value v.challenge.token v.key_authorization
        then complete_acme_challenge actor challenge_id w
        else mark_acme_challenge_processing actor v.challenge.id w

    unfoldable pub validate_acme_http01_challenge : String → String → Op AcmeChallenge
    validate_acme_http01_challenge actor challenge_id =
        acme_http01_validation_context challenge_id >>= after_verification actor challenge_id

    -- The loop over the challenges of the authorization.
    unfoldable pub validate_processing : String → List AcmeChallenge → Op (Unit {0})
    validate_processing actor [] = return tt
    validate_processing actor (c ∷ cs) =
        let rest = validate_processing actor cs in
        if is_http01 c && challenge_is AcmeChallengeStatus.processing c
        then (validate_acme_http01_challenge actor c.id >>= λ _. rest)
        else rest

    abbrev pub poll_pending : String → String → AcmeAuthorization → Op AcmeAuthorization
    poll_pending actor authorization_id authorization =
        if not (authorization_is AcmeAuthorizationStatus.pending authorization)
        then return authorization
        else (do
          challenges ← repo (Repository.list_acme_challenges_by_authorization authorization_id)
          validate_processing actor challenges
          repo (Repository.get_acme_authorization authorization_id))

    unfoldable pub poll_acme_authorization : String → String → Op AcmeAuthorization
    poll_acme_authorization actor authorization_id = do
      guard (is_blank svc authorization_id) Error.invalid_request
      authorization ← repo (Repository.get_acme_authorization authorization_id)
      poll_pending actor authorization_id authorization
