-- ===== src/Lifecycle/Services/Acme/Validation.antt =====
-- service.go: when ValidateACMEHTTP01Challenge makes a challenge valid.
use Prim.Native.String.{◌++◌}
use ano_pki_community.Common.{
  true_of_not, or_false, String, ◌≡◌, refl, arith, true, false, some, lookup, Time, ok, Bool-cases,
  inl, inr, subst,
}
use ano_pki_community.Domain.{
  AcmeAccount, AcmeAccountStatus, AcmeOrder, AcmeOrderStatus, AcmeAuthorization,
  AcmeAuthorizationStatus, AcmeChallenge, AcmeChallengeStatus, AcmeChallengeStatus-discrete,
}
use ano_pki_community.Store.Repository.{
  get_acme_order, get_acme_challenge, get_acme_authorization, get_acme_account,
  update_acme_challenge_if_status,
}
use ano_pki_community.Lifecycle.World.{World}
use ano_pki_community.Lifecycle.World.Ensures.{
  Ensures, Ensures-ok, Ensures-in_tx, Ensures-then, Ensures-found, Ensures-guard, Ensures-written,
  Ensures-step, Ensures-return, Ensures-weaken, Ensures-world,
}
use ano_pki_community.Lifecycle.Services.{Service}
use ano_pki_community.Lifecycle.Services.Audited.{Ensures-Audited}
use ano_pki_community.Lifecycle.Services.Acme.{
  challenge_is, authorization_is, order_is, account_is, is_open, acme_expired,
}
use ano_pki_community.Lifecycle.Services.Acme.Challenges.{
  ValidationContext, Http01Verifier, is_http01, context_of, acme_http01_validation_context,
  mark_acme_challenge_processing, after_verification, validate_acme_http01_challenge,
}

-- The stored challenge, authorization, order and account are all open to a validation at a time.
abbrev pub CanValidate :
    World → Time → String → AcmeChallenge → AcmeAuthorization → AcmeOrder → AcmeAccount → Type 0
CanValidate w now id challenge authorization order account =
    ((lookup id w.store.acme_challenges ≡ some challenge)
      × (lookup challenge.authorization_id w.store.acme_authzs ≡ some authorization)
      × (lookup authorization.order_id w.store.acme_orders ≡ some order)
      × (lookup order.account_id w.store.acme_accounts ≡ some account))
    × (is_http01 challenge ≡ true)
    × (is_open challenge ≡ true)
    × (authorization_is AcmeAuthorizationStatus.pending authorization ≡ true)
    × (order_is AcmeOrderStatus.pending order ≡ true)
    × (acme_expired order.expires_at now ≡ false)
    × (acme_expired authorization.expires_at now ≡ false)
    × (account_is AcmeAccountStatus.valid account ≡ true)

abbrev HasContext : World → Time → String → ValidationContext → World → Type 0
HasContext w now id v w' =
    (authorization : AcmeAuthorization) × (order : AcmeOrder) × (account : AcmeAccount)
    × CanValidate w now id v.challenge authorization order account
    × (v ≡ context_of v.challenge authorization account)
    × (w'.store ≡ w.store)

acme_http01_validation_context-HasContext :
    (svc : Service) (id : String) (w : World)
    → Ensures
        (HasContext w (svc.environment.reading w.readings) id)
        (acme_http01_validation_context svc id w)
unfolding acme_http01_validation_context get_acme_challenge get_acme_authorization get_acme_order
    get_acme_account
acme_http01_validation_context-HasContext svc id w =
    let Q = HasContext w (svc.environment.reading w.readings) id in
    Ensures-guard Q _ _ _ w λ b. Ensures-found Q _ _ _ _ λ challenge found.
      Ensures-guard Q _ _ _ w λ unfit. Ensures-found Q _ _ _ _ λ authorization found_authorization.
        Ensures-guard Q _ _ _ w λ closed. Ensures-found Q _ _ _ _ λ order found_order.
          Ensures-guard Q _ _ _ w λ settled. Ensures-step Q _ _ _ (
            Ensures-guard Q _ _ _ _ λ late. Ensures-found Q _ _ _ _ λ account found_account.
              Ensures-guard Q _ _ _ _ λ gone. Ensures-guard Q _ _ _ _ λ bad. Ensures-return Q _ _ (
                authorization,
                order,
                account,
                (
                  (found, found_authorization, found_order, found_account),
                  true_of_not _ (or_false _ _ unfit).0,
                  true_of_not _ (or_false _ _ unfit).1,
                  true_of_not _ closed,
                  true_of_not _ settled,
                  (or_false _ _ late).0,
                  (or_false _ _ late).1,
                  true_of_not _ (or_false _ _ bad).0,
                ),
                refl,
                refl,
              ))

-- A challenge that is marked as being processed is not valid.
mark_acme_challenge_processing-is_not_valid :
    (svc : Service) (actor id : String) (w : World)
    → Ensures
        (λ c w'. challenge_is AcmeChallengeStatus.valid c ≡ false)
        (mark_acme_challenge_processing svc actor id w)
unfolding mark_acme_challenge_processing get_acme_challenge get_acme_authorization
    update_acme_challenge_if_status AcmeChallengeStatus-discrete
mark_acme_challenge_processing-is_not_valid svc actor id w =
    let Q : AcmeChallenge → World → Type 0 =
      λ c w'. challenge_is AcmeChallengeStatus.valid c ≡ false in
    Ensures-step Q _ _ _ (
      Ensures-in_tx Q _ _ (
        Ensures-found Q _ _ _ _ λ challenge found. Ensures-guard Q _ _ _ _ λ waits.
          Ensures-found Q _ _ _ _ λ authorization found_authorization.
            Ensures-guard Q _ _ _ _ λ closed. Ensures-written Q _ _ _ _ λ m wrote.
              Ensures-Audited Q _ svc actor _ _ _ _ _ _ λ v a. Ensures-return Q _ v refl))

-- What a valid result says of the world before the call, and of the verifier.
abbrev pub Accepted : Service → Http01Verifier → String → World → Type 0
Accepted svc verify_http01 id w =
    (challenge : AcmeChallenge) × (authorization : AcmeAuthorization) × (order : AcmeOrder)
    × (account : AcmeAccount) × CanValidate w (svc.environment.reading w.readings) id challenge
        authorization order account
    × (v : World) × (v.store ≡ w.store)
    × (verify_http01 v authorization.identifier_value challenge.token
          (challenge.token ++ "." ++ account.key_thumbprint)
        ≡ true)

after_verification-Accepted :
    (svc : Service) (verify_http01 : Http01Verifier) (actor id : String) (w : World)
    (x : ValidationContext) (v : World)
    → HasContext w (svc.environment.reading w.readings) id x v
    → Ensures
        (λ c w'. challenge_is AcmeChallengeStatus.valid c ≡ true → Accepted svc verify_http01 id w)
        (after_verification svc verify_http01 actor id x v)
after_verification-Accepted svc verify_http01 actor id w x v (a, o, account, can, e, same) =
    let answer = verify_http01 v x.identifier_value x.challenge.token x.key_authorization in
    elim (Bool-cases answer) [
      | inl yes_ ↦ rw yes_ (
          Ensures-world _ _ λ c valid. (
            x.challenge,
            a,
            o,
            account,
            can,
            v,
            same,
            subst
                (λ y.
                  verify_http01 v y.identifier_value x.challenge.token y.key_authorization ≡ true)
                e yes_,
          ))
      | inr no_ ↦ rw no_ (
          Ensures-weaken _ _ _ (λ c u invalid valid. ground (arith, invalid, valid))
            (mark_acme_challenge_processing-is_not_valid svc actor x.challenge.id v))
    ]

-- A challenge that ValidateACMEHTTP01Challenge returns as valid is an HTTP-01 challenge that was
-- pending or processing, its authorization and its order were pending and had not expired, the account
-- was valid, and the verifier accepted, in the same store, the challenge's token followed by a dot and
-- the account's key thumbprint for the identifier of the authorization.
pub validate_acme_http01_challenge-Accepted :
    (svc : Service) (verify_http01 : Http01Verifier) (actor id : String) (w w' : World)
    (c : AcmeChallenge)
    → validate_acme_http01_challenge svc verify_http01 actor id w ≡ (ok c, w')
    → challenge_is AcmeChallengeStatus.valid c ≡ true
    → Accepted svc verify_http01 id w
unfolding validate_acme_http01_challenge
validate_acme_http01_challenge-Accepted svc verify_http01 actor id w w' c h =
    Ensures-ok _ _ c w'
      (Ensures-then _ _ _ _ (acme_http01_validation_context-HasContext svc id w)
        λ x v has. after_verification-Accepted svc verify_http01 actor id w x v has)
      h
