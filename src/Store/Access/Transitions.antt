-- ===== src/Store/Access/Transitions.antt =====
-- memory.go: what the conditional writes of the ACME maps did when they succeed.
use ano_pki_community.Common.{
  String, ◌≡◌, sym, Bool, false, not, is_yes, some, GoMap, lookup, insert, ok, Error,
  conditional_ok,
}
use ano_pki_community.Domain.{
  AcmeOrder, AcmeOrderStatus, AcmeOrderStatus-discrete, AcmeAuthorization, AcmeAuthorizationStatus,
  AcmeAuthorizationStatus-discrete, AcmeChallenge, AcmeChallengeStatus,
  AcmeChallengeStatus-discrete,
}
use ano_pki_community.Store.Access.{
  update_acme_order_if_status, update_acme_authorization_if_status, update_acme_challenge_if_status,
}

-- The entry `v` was written over `old`, which passed the test.
abbrev pub Replaced : {V : Type 0} → (V → Bool) → String → V → GoMap V → GoMap V → Type 0
Replaced {V} test id v m m' =
    (old : V) × (lookup id m ≡ some old) × (not (test old) ≡ false) × (m' ≡ insert id v m)

pub update_acme_order_if_status-Replaced :
    (v : AcmeOrder) (status : AcmeOrderStatus) (m m' : GoMap AcmeOrder)
    → update_acme_order_if_status m v status ≡ ok m'
    → Replaced (λ old. is_yes (AcmeOrderStatus-discrete old.status status)) v.id v m m'
unfolding update_acme_order_if_status
update_acme_order_if_status-Replaced v status m m' h =
    let (old, found, same, e) =
      conditional_ok (lookup v.id m) Error.acme_order_not_found
        (λ old. not (is_yes (AcmeOrderStatus-discrete old.status status))) Error.invalid_transition
        (insert v.id v m) m' h in
    (old, found, same, sym e)

pub update_acme_authorization_if_status-Replaced :
    (v : AcmeAuthorization) (status : AcmeAuthorizationStatus) (m m' : GoMap AcmeAuthorization)
    → update_acme_authorization_if_status m v status ≡ ok m'
    → Replaced (λ old. is_yes (AcmeAuthorizationStatus-discrete old.status status)) v.id v m m'
unfolding update_acme_authorization_if_status
update_acme_authorization_if_status-Replaced v status m m' h =
    let (old, found, same, e) =
      conditional_ok (lookup v.id m) Error.acme_authorization_not_found
        (λ old. not (is_yes (AcmeAuthorizationStatus-discrete old.status status)))
        Error.invalid_transition (insert v.id v m) m' h in
    (old, found, same, sym e)

pub update_acme_challenge_if_status-Replaced :
    (v : AcmeChallenge) (status : AcmeChallengeStatus) (m m' : GoMap AcmeChallenge)
    → update_acme_challenge_if_status m v status ≡ ok m'
    → Replaced (λ old. is_yes (AcmeChallengeStatus-discrete old.status status)) v.id v m m'
unfolding update_acme_challenge_if_status
update_acme_challenge_if_status-Replaced v status m m' h =
    let (old, found, same, e) =
      conditional_ok (lookup v.id m) Error.acme_challenge_not_found
        (λ old. not (is_yes (AcmeChallengeStatus-discrete old.status status)))
        Error.invalid_transition (insert v.id v m) m' h in
    (old, found, same, sym e)
