-- ===== src/Common/Results.antt =====
-- domain/errors.go: the error values, and the pair `(value, error)` that Go functions return.
use mathlib.Core.Path.{◌≡◌, refl}
use mathlib.Core.Bool.{Bool, true, false}
use mathlib.Core.Option.{Option, none, some}
use mathlib.Core.Logic.{◌⊎◌, inl, inr}
use Prim.Native.String.{String}
use native.Mathlib.Omega.{arith}

pub data Error : Type 0 where
  invalid_request unsupported_media_type unauthorized forbidden rate_limited : Error
  identity_not_found issuer_not_found ocsp_responder_not_found : Error
  notification_endpoint_not_found certificate_profile_not_found enrollment_not_found : Error
  certificate_not_found issuance_attempt_not_found crl_publication_not_found : Error
  crl_generation_claim_not_found outbox_message_not_found webhook_delivery_not_found : Error
  api_key_not_found acme_account_not_found acme_account_deactivated acme_order_not_found : Error
  acme_authorization_not_found acme_challenge_not_found invalid_transition : Error
  csr_parse_failed certificate_issuance_failed crl_generation_failed ocsp_decode_failed : Error
  ocsp_response_failed ocsp_responder_validation_failed : Error
  audit_integrity : String → Error
  storage_failure : Error
  -- An error made by `fmt.Errorf` or by a called package, with its text.
  other_error : String → Error

pub data Result {ℓ} (V : Type ℓ) : Type ℓ where
  ok : V → Result V
  err : Error → Result V

abbrev pub or_fail {ℓ} : {V : Type ℓ} → Option V → Error → Result V
or_fail none failure = err failure
or_fail (some a) failure = ok a

infixl 5 ◌>>=◌ ◌>>◌
abbrev pub ◌>>=◌ {ℓ κ} : {V : Type ℓ} {W : Type κ} → Result V → (V → Result W) → Result W
ok a >>= next = next a
err failure >>= next = err failure

abbrev pub ◌>>◌ {ℓ} : {W : Type ℓ} → Result (Unit {0}) → Result W → Result W
m >> k = m >>= λ _. k

-- `if bad { return err }`.
abbrev pub reject_if : Bool → Error → Result (Unit {0})
reject_if true failure = err failure
reject_if false failure = ok tt

pub >>=-eq-ok {ℓ κ} :
    {V : Type ℓ} {W : Type κ} (m : Result V) (next : V → Result W) {b : W}
    → (m >>= next) ≡ ok b
    → (a : V) × (m ≡ ok a) × (next a ≡ ok b)
>>=-eq-ok (ok a) next h = (a, refl, h)
>>=-eq-ok (err failure) next h = cc

pub Result-cases {ℓ} :
    {V : Type ℓ} (r : Result V) → ((a : V) × (r ≡ ok a)) ⊎ ((failure : Error) × (r ≡ err failure))
Result-cases (ok a) = inl (a, refl)
Result-cases (err failure) = inr (failure, refl)

-- A conditional write that succeeds: the current value was found and not refused.
pub conditional_ok {ℓ κ} :
    {V : Type ℓ} {W : Type κ} (o : Option V) (x : Error) (bad : V → Bool) (y : Error) (w v : W)
    → (or_fail o x >>= λ current. reject_if (bad current) y >> ok w) ≡ ok v
    → (current : V) × (o ≡ some current) × (bad current ≡ false) × (w ≡ v)
conditional_ok none x bad y w v h = cc
conditional_ok (some current) x bad y w v h = (current, refl, ground arith, ground arith)
