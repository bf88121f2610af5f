-- ===== src/Lifecycle/Services/Acme/Polls.antt =====
-- service.go: validating a challenge and polling an authorization keep what is promised of ready orders.
use ano_pki_community.Common.{String, inl, inr, Bool-cases, not, ◌&&◌, List, [], ◌∷◌}
use ano_pki_community.Domain.{
  AcmeAuthorization, AcmeAuthorizationStatus, AcmeChallenge, AcmeChallengeStatus,
}
use ano_pki_community.Store.Repository.{
  get_acme_order, get_acme_challenge, get_acme_authorization, get_acme_account,
  update_acme_challenge_if_status, list_acme_challenges_by_authorization,
}
use ano_pki_community.Lifecycle.World.{World}
use ano_pki_community.Lifecycle.World.Ensures.{
  Ensures-found, Ensures-guard, Ensures-written, Ensures-return,
}
use ano_pki_community.Lifecycle.World.Leaves.{
  Leaves, Leaves-read, Leaves-guard, Leaves-then, Leaves-in_tx,
}
use ano_pki_community.Lifecycle.Services.{Service}
use ano_pki_community.Lifecycle.Services.Audited.{Ensures-Audited}
use ano_pki_community.Lifecycle.Services.Acme.{authorization_is, challenge_is}
use ano_pki_community.Lifecycle.Services.Acme.Challenges.{
  Http01Verifier, is_http01, ValidationContext, acme_http01_validation_context,
  mark_acme_challenge_processing, after_verification, validate_acme_http01_challenge,
  validate_processing, poll_pending, poll_acme_authorization,
}
use ano_pki_community.Lifecycle.Services.Acme.Ready.{
  IsReadySound, Sound, complete_acme_challenge-IsReadySound,
}

mark_acme_challenge_processing-IsReadySound :
    (svc : Service) (actor id : String) (w : World)
    → IsReadySound w.store
    → Leaves IsReadySound (mark_acme_challenge_processing svc actor id w)
unfolding mark_acme_challenge_processing get_acme_challenge get_acme_authorization
    update_acme_challenge_if_status
mark_acme_challenge_processing-IsReadySound svc actor id w s =
    Leaves-then IsReadySound _ _ (Leaves-read IsReadySound _ _ s) λ now v sv.
      Leaves-in_tx IsReadySound _ v sv (
        Ensures-found Sound _ _ _ _ λ challenge found. Ensures-guard Sound _ _ _ _ λ waits.
          Ensures-found Sound _ _ _ _ λ authorization found_authorization.
            Ensures-guard Sound _ _ _ _ λ closed. Ensures-written Sound _ _ _ _ λ m wrote.
              Ensures-Audited Sound _ svc actor _ _ _ _ _ _
                λ v' (log, e). Ensures-return Sound _ v' (rw e sv))

acme_http01_validation_context-IsReadySound :
    (svc : Service) (id : String) (w : World)
    → IsReadySound w.store
    → Leaves IsReadySound (acme_http01_validation_context svc id w)
unfolding acme_http01_validation_context get_acme_challenge get_acme_authorization get_acme_order
    get_acme_account
acme_http01_validation_context-IsReadySound svc id w s =
    let P = IsReadySound in
    Leaves-then P _ _ (Leaves-guard P _ _ w s) λ u1 v1 s1.
      Leaves-then P _ _ (Leaves-read P _ _ s1) λ challenge v2 s2.
        Leaves-then P _ _ (Leaves-guard P _ _ v2 s2) λ u3 v3 s3.
          Leaves-then P _ _ (Leaves-read P _ _ s3) λ authorization v4 s4.
            Leaves-then P _ _ (Leaves-guard P _ _ v4 s4) λ u5 v5 s5.
              Leaves-then P _ _ (Leaves-read P _ _ s5) λ order v6 s6.
                Leaves-then P _ _ (Leaves-guard P _ _ v6 s6) λ u7 v7 s7.
                  Leaves-then P _ _ (Leaves-read P _ _ s7) λ now v8 s8.
                    Leaves-then P _ _ (Leaves-guard P _ _ v8 s8) λ u9 v9 s9.
                      Leaves-then P _ _ (Leaves-read P _ _ s9) λ account v10 s10.
                        Leaves-then P _ _ (Leaves-guard P _ _ v10 s10) λ u11 v11 s11.
                          Leaves-then P _ _ (Leaves-guard P _ _ v11 s11)
                            λ u12 v12 s12. Leaves-read P _ v12 s12

module _ (svc : Service) (verify_http01 : Http01Verifier) (actor : String) where
  after_verification-IsReadySound :
      (id : String) (x : ValidationContext) (w : World)
      → IsReadySound w.store
      → Leaves IsReadySound (after_verification svc verify_http01 actor id x w)
  after_verification-IsReadySound id x w s =
      elim (Bool-cases (verify_http01 w x.identifier_value x.challenge.token x.key_authorization)) [
        | inl e ↦ rw e (complete_acme_challenge-IsReadySound svc actor id w s)
        | inr e ↦ rw e (mark_acme_challenge_processing-IsReadySound svc actor x.challenge.id w s)
      ]

  pub validate_acme_http01_challenge-IsReadySound :
      (id : String) (w : World)
      → IsReadySound w.store
      → Leaves IsReadySound (validate_acme_http01_challenge svc verify_http01 actor id w)
  unfolding validate_acme_http01_challenge
  validate_acme_http01_challenge-IsReadySound id w s =
      Leaves-then IsReadySound _ _ (acme_http01_validation_context-IsReadySound svc id w s)
        λ x v sv. after_verification-IsReadySound id x v sv

  validate_processing-IsReadySound :
      (challenges : List AcmeChallenge) (w : World)
      → IsReadySound w.store
      → Leaves IsReadySound (validate_processing svc verify_http01 actor challenges w)
  unfolding validate_processing
  validate_processing-IsReadySound [] w s = Leaves-read IsReadySound _ w s
  validate_processing-IsReadySound (c ∷ cs) w s =
      elim (Bool-cases (is_http01 c && challenge_is AcmeChallengeStatus.processing c)) [
        | inl e ↦ rw e (
            Leaves-then IsReadySound _ _ (validate_acme_http01_challenge-IsReadySound c.id w s)
              λ x v sv. validate_processing-IsReadySound cs v sv)
        | inr e ↦ rw e (validate_processing-IsReadySound cs w s)
      ]

  poll_pending-IsReadySound :
      (id : String) (a : AcmeAuthorization) (w : World)
      → IsReadySound w.store
      → Leaves IsReadySound (poll_pending svc verify_http01 actor id a w)
  unfolding get_acme_authorization list_acme_challenges_by_authorization
  poll_pending-IsReadySound id a w s =
      elim (Bool-cases (not (authorization_is AcmeAuthorizationStatus.pending a))) [
        | inl e ↦ rw e (Leaves-read IsReadySound _ w s)
        | inr e ↦ rw e (
            Leaves-then IsReadySound _ _ (Leaves-read IsReadySound _ _ s) λ challenges v sv.
              Leaves-then IsReadySound _ _ (validate_processing-IsReadySound challenges v sv)
                λ u v' sv'. Leaves-read IsReadySound _ v' sv')
      ]

-- Polling an authorization, which validates every challenge of it that is being processed, keeps that
-- no order is ready before all its authorizations are valid, whatever the verifier answers and whether
-- the call succeeds or fails.
pub poll_acme_authorization-IsReadySound :
    (svc : Service) (verify_http01 : Http01Verifier) (actor id : String) (w : World)
    → IsReadySound w.store
    → Leaves IsReadySound (poll_acme_authorization svc verify_http01 actor id w)
unfolding poll_acme_authorization get_acme_authorization
poll_acme_authorization-IsReadySound svc verify_http01 actor id w s =
    let P = IsReadySound in
    Leaves-then P _ _ (Leaves-guard P _ _ w s) λ u1 v1 s1.
      Leaves-then P _ _ (Leaves-read P _ _ s1) λ authorization v2 s2.
        poll_pending-IsReadySound svc verify_http01 actor id authorization v2 s2
