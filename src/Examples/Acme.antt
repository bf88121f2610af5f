-- ===== src/Examples/Acme.antt =====
-- The ACME operations, with a small service and a verifier that accepts one key authorization.
use ano_pki_community.Common.{
  increment, ap, ◌≡◌, refl, ◌==◌, true, some, [], ◌∷◌, lookup, insert, values, sort_slice,
  insert_sorted, ok,
}
use ano_pki_community.Domain.{
  AcmeAccount, AcmeAccountStatus, AcmeAccountStatus-discrete, AcmeOrder, AcmeOrderStatus,
  AcmeOrderStatus-discrete, AcmeAuthorization, AcmeAuthorizationStatus,
  AcmeAuthorizationStatus-discrete, AcmeChallenge, AcmeChallengeStatus,
  AcmeChallengeStatus-discrete, AcmeChallengeType, AcmeChallengeType-discrete,
}
use ano_pki_community.Audit.Hex.{is_audit_hash}
use ano_pki_community.Audit.Hash.{
  audit_event_hash, canonical_audit_metadata, hash_payload, with_audit_event_hash,
}
use ano_pki_community.Audit.Verify.{
  audit_integrity_error, verify_audit_state, verify_audit_events, checkpoint_failure, verify_loop,
  empty_audit_chain_state, event_failure,
}
use ano_pki_community.Audit.Memory.{append_memory_audit_event}
use ano_pki_community.Store.State.{new_memory_store, within_tx, written}
use ano_pki_community.Store.Access as Access
use ano_pki_community.Store.Repository as Repository
use ano_pki_community.Lifecycle.World.{Op, World, in_tx, bound, guard}
use ano_pki_community.Lifecycle.World.Leaves.{Leaves}
use ano_pki_community.Lifecycle.Services.{create_audit_event}
use ano_pki_community.Lifecycle.Services.Acme.{
  challenge_is, valid_challenge, unless, promote_acme_authorization_if_ready,
  promote_acme_order_if_ready,
}
use ano_pki_community.Lifecycle.Services.Acme.Ceilings.{public_tls_validation_reuse_ceiling}
use ano_pki_community.Lifecycle.Services.Acme.Challenges.{
  Http01Verifier, acme_http01_validation_context, complete_acme_challenge,
  validate_acme_http01_challenge, poll_acme_authorization,
}
use ano_pki_community.Lifecycle.Services.Acme.Completion.{Completed, complete_acme_challenge_lem}
use ano_pki_community.Lifecycle.Services.Acme.Validation.{
  Accepted, validate_acme_http01_challenge-Accepted,
}
use ano_pki_community.Lifecycle.Services.Acme.Ready.{IsReadySound}
use ano_pki_community.Lifecycle.Services.Acme.Polls.{poll_acme_authorization-IsReadySound}
use ano_pki_community.Examples.Services.{service}

abbrev account : AcmeAccount
account = record {
  id = "account-1";
  contacts = [];
  status = AcmeAccountStatus.valid;
  terms_of_service_agreed = true;
  key_thumbprint = "thumb";
  key_jwk_json = "{}";
  created_at = 1;
  updated_at = 1;
}

abbrev order : AcmeOrder
order = record {
  id = "order-1";
  account_id = "account-1";
  identity_id = "identity-1";
  issuer_id = "issuer-1";
  certificate_profile_id = "";
  status = AcmeOrderStatus.pending;
  csr_pem = "";
  requested_subject = "";
  requested_dns_names = "example.com" ∷ [];
  requested_ip_addresses = [];
  requested_not_after = 1000;
  enrollment_id = "";
  certificate_id = "";
  expires_at = 900;
  created_at = 1;
  updated_at = 1;
}

abbrev authorization : AcmeAuthorization
authorization = record {
  id = "authz-1";
  order_id = "order-1";
  identifier_type = "dns";
  identifier_value = "example.com";
  status = AcmeAuthorizationStatus.pending;
  expires_at = 900;
  validation_reuse_expires_at = 0;
  created_at = 1;
  updated_at = 1;
}

abbrev challenge : AcmeChallengeStatus → AcmeChallenge
challenge status = record {
  id = "challenge-1";
  authorization_id = "authz-1";
  type = AcmeChallengeType.http01;
  token = "token";
  status = status;
  validated_at = 0;
  created_at = 1;
  updated_at = 1;
}

abbrev acme_world : AcmeChallengeStatus → World
acme_world status = record {
  store = record new_memory_store {
    acme_accounts = ("account-1", account) ∷ [];
    acme_orders = ("order-1", order) ∷ [];
    acme_authzs = ("authz-1", authorization) ∷ [];
    acme_challenges = ("challenge-1", challenge status) ∷ [];
  };
  readings = 0;
  ids = 0;
}

abbrev verifier : Http01Verifier
verifier w identifier token key_authorization = key_authorization == "token.thumb"

abbrev pending_world : World
pending_world = acme_world AcmeChallengeStatus.pending

pending_stored :
    lookup "challenge-1" pending_world.store.acme_challenges
    ≡ some (challenge AcmeChallengeStatus.pending)
unfolding lookup
pending_stored = refl

abbrev completion : Op AcmeChallenge
completion = complete_acme_challenge service "operator" "challenge-1"

completes :
    (completion pending_world).0 ≡ ok (valid_challenge (challenge AcmeChallengeStatus.pending) 100)
unfolding complete_acme_challenge bound guard written in_tx within_tx lookup insert values
    AcmeChallengeStatus-discrete AcmeAuthorizationStatus-discrete AcmeOrderStatus-discrete
    Repository.get_acme_challenge Repository.get_acme_authorization Repository.get_acme_order
    Repository.update_acme_challenge_if_status Repository.update_acme_authorization_if_status
    Repository.update_acme_order_if_status Repository.list_acme_challenges_by_authorization
    Repository.list_acme_authorizations_by_order Access.update_acme_challenge_if_status
    Access.update_acme_authorization_if_status Access.update_acme_order_if_status
    Access.list_acme_challenges_by_authorization Access.list_acme_authorizations_by_order sort_slice
    insert_sorted unless promote_acme_authorization_if_ready promote_acme_order_if_ready
    public_tls_validation_reuse_ceiling new_memory_store create_audit_event
    Repository.create_audit_event append_memory_audit_event audit_integrity_error verify_audit_state
    verify_audit_events checkpoint_failure verify_loop audit_event_hash canonical_audit_metadata
    hash_payload with_audit_event_hash is_audit_hash empty_audit_chain_state event_failure increment
completes = refl

complete_acme_challenge_lem_example :
    Completed
      (challenge AcmeChallengeStatus.pending)
      100
      pending_world
      (valid_challenge (challenge AcmeChallengeStatus.pending) 100)
      (completion pending_world).1
complete_acme_challenge_lem_example =
    complete_acme_challenge_lem service "operator" "challenge-1" pending_world
      (completion pending_world).1 (challenge AcmeChallengeStatus.pending)
      (valid_challenge (challenge AcmeChallengeStatus.pending) 100) pending_stored
      (ap (λ r. (r, (completion pending_world).1)) completes)

abbrev validation : Op AcmeChallenge
validation = validate_acme_http01_challenge service verifier "operator" "challenge-1"

validates :
    (validation pending_world).0 ≡ ok (valid_challenge (challenge AcmeChallengeStatus.pending) 101)
unfolding validate_acme_http01_challenge acme_http01_validation_context Repository.get_acme_account
    AcmeChallengeType-discrete AcmeAccountStatus-discrete complete_acme_challenge bound guard
    written in_tx within_tx lookup insert values AcmeChallengeStatus-discrete
    AcmeAuthorizationStatus-discrete AcmeOrderStatus-discrete Repository.get_acme_challenge
    Repository.get_acme_authorization Repository.get_acme_order
    Repository.update_acme_challenge_if_status Repository.update_acme_authorization_if_status
    Repository.update_acme_order_if_status Repository.list_acme_challenges_by_authorization
    Repository.list_acme_authorizations_by_order Access.update_acme_challenge_if_status
    Access.update_acme_authorization_if_status Access.update_acme_order_if_status
    Access.list_acme_challenges_by_authorization Access.list_acme_authorizations_by_order sort_slice
    insert_sorted unless promote_acme_authorization_if_ready promote_acme_order_if_ready
    public_tls_validation_reuse_ceiling new_memory_store create_audit_event
    Repository.create_audit_event append_memory_audit_event audit_integrity_error verify_audit_state
    verify_audit_events checkpoint_failure verify_loop audit_event_hash canonical_audit_metadata
    hash_payload with_audit_event_hash is_audit_hash empty_audit_chain_state event_failure increment
validates = refl

valid_result :
    challenge_is AcmeChallengeStatus.valid
      (valid_challenge (challenge AcmeChallengeStatus.pending) 101)
    ≡ true
unfolding AcmeChallengeStatus-discrete
valid_result = refl

validate_acme_http01_challenge-Accepted_example :
    Accepted service verifier "challenge-1" pending_world
validate_acme_http01_challenge-Accepted_example =
    validate_acme_http01_challenge-Accepted service verifier "operator" "challenge-1" pending_world
      (validation pending_world).1 (valid_challenge (challenge AcmeChallengeStatus.pending) 101)
      (ap (λ r. (r, (validation pending_world).1)) validates) valid_result

processing_sound : IsReadySound (acme_world AcmeChallengeStatus.processing).store
unfolding values AcmeOrderStatus-discrete
processing_sound = (refl, tt)

poll_acme_authorization-IsReadySound_example : Leaves IsReadySound (
    poll_acme_authorization service verifier "operator" "authz-1"
      (acme_world AcmeChallengeStatus.processing))
poll_acme_authorization-IsReadySound_example =
    poll_acme_authorization-IsReadySound service verifier "operator" "authz-1"
      (acme_world AcmeChallengeStatus.processing) processing_sound
