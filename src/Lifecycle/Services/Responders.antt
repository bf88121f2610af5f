-- ===== src/Lifecycle/Services/Responders.antt =====
-- lifecycle/service.go: the OCSP responders of an issuer: their end and rotation. ValidateOCSPResponder of
-- the signer, which is given the issuer's and the responder's certificate, is the argument `validate`; its
-- result is the field Valid.
pub mod Rotation
use ano_pki_community.Common.{
  String, Bool, true, false, not, if◌then◌else◌, ◌||◌, ◌==◌, List, [], ◌∷◌, Time, Result, ok, err,
  Error,
}
use ano_pki_community.Domain.{OcspResponder, OcspResponderStatus}
use ano_pki_community.Store.Responders.{is_active}
use ano_pki_community.Store.Repository as Repository
use ano_pki_community.Lifecycle.World.{
  World, Op, return, fail, ◌>>=◌, ◌>>◌, guard, attempt, repo, clock_now, fresh_id, in_tx,
}
use ano_pki_community.Lifecycle.Services.{
  Service, Fields, audit_fields, is_blank, create_audit_event,
}

pub record RotateOcspResponderRequest : Type 0 where
  pub issuer_id : String
  pub name : String
  pub certificate_pem : String
  pub key_ref : String

abbrev pub disabled_responder : OcspResponder → Time → OcspResponder
disabled_responder responder now = record responder {
  status = OcspResponderStatus.disabled;
  updated_at = now;
}

abbrev pub new_responder : String → RotateOcspResponderRequest → Time → OcspResponder
new_responder id req now = record {
  id = id;
  issuer_id = req.issuer_id;
  name = req.name;
  status = OcspResponderStatus.active;
  certificate_pem = req.certificate_pem;
  key_ref = req.key_ref;
  created_at = now;
  updated_at = now;
}

abbrev pub responder_fields : OcspResponder → Fields
responder_fields responder =
    audit_fields (("issuer_id", responder.issuer_id) ∷ ("ocsp_responder_id", responder.id) ∷ [])

abbrev pub is_missing_responder : Error → Bool
is_missing_responder Error.ocsp_responder_not_found = true
is_missing_responder _ = false

-- An issuer without an active responder has none to rotate.
abbrev pub active_or_refused : Result OcspResponder → Op OcspResponder
active_or_refused (ok responder) = return responder
active_or_refused (err x) = if is_missing_responder x then fail Error.invalid_transition else fail x

abbrev pub current_responder : String → Op OcspResponder
current_responder issuer_id = do
  found ← attempt (repo (Repository.get_active_ocsp_responder_by_issuer issuer_id))
  active_or_refused found

-- The error of the signer is wrapped in ErrOCSPResponseFailed.
abbrev pub validated : Result Bool → Op (Unit {0})
validated (ok true) = return tt
validated (ok false) = fail Error.ocsp_responder_validation_failed
validated (err x) = fail Error.ocsp_response_failed

module _ (svc : Service) where
  unfoldable pub list_ocsp_responders_by_issuer : String → Op (List OcspResponder)
  list_ocsp_responders_by_issuer issuer_id = do
    guard (is_blank svc issuer_id) Error.invalid_request
    issuer ← repo (Repository.get_issuer issuer_id)
    repo (Repository.list_ocsp_responders_by_issuer issuer_id)

  abbrev pub disable_responder : String → String → Time → OcspResponder → Op OcspResponder
  disable_responder actor issuer_id now responder = do
    guard (not (responder.issuer_id == issuer_id)) Error.ocsp_responder_not_found
    guard (not (is_active responder)) Error.invalid_transition
    repo (
        Repository.update_ocsp_responder_if_status (disabled_responder responder now)
          OcspResponderStatus.active)
    create_audit_event svc actor "ocsp_responder.disabled" "ocsp_responder" responder.id now
        (responder_fields responder)
    return (disabled_responder responder now)

  unfoldable pub disable_ocsp_responder : String → String → String → Op OcspResponder
  disable_ocsp_responder actor issuer_id responder_id = do
    guard (is_blank svc issuer_id || is_blank svc responder_id) Error.invalid_request
    now ← clock_now svc.environment
    in_tx (do
      issuer ← repo (Repository.get_issuer issuer_id)
      responder ← repo (Repository.get_ocsp_responder responder_id)
      disable_responder actor issuer_id now responder)

  -- Behind the lookups of the transaction.
  abbrev pub replace_responder : String → Time → OcspResponder → OcspResponder → Op (Unit {0})
  replace_responder actor now responder current = do
    repo (
        Repository.update_ocsp_responder_if_status (disabled_responder current now)
          OcspResponderStatus.active)
    create_audit_event svc actor "ocsp_responder.disabled" "ocsp_responder" current.id now
        (responder_fields current)
    repo (Repository.create_ocsp_responder responder)
    create_audit_event svc actor "ocsp_responder.created" "ocsp_responder" responder.id now
        (responder_fields responder)

  abbrev pub replace_in_tx : String → Time → String → RotateOcspResponderRequest → Op (Unit {0})
  replace_in_tx actor now id req = in_tx (do
    issuer ← repo (Repository.get_issuer req.issuer_id)
    current ← current_responder req.issuer_id
    replace_responder actor now (new_responder id req now) current)

  unfoldable pub rotate_ocsp_responder :
      (String → String → Result Bool) → String → RotateOcspResponderRequest → Op OcspResponder
  rotate_ocsp_responder validate actor req = do
    guard
        (is_blank svc req.issuer_id
          || is_blank svc req.name
          || is_blank svc req.certificate_pem
          || is_blank svc req.key_ref)
        Error.invalid_request
    now ← clock_now svc.environment
    issuer ← repo (Repository.get_issuer req.issuer_id)
    active ← current_responder req.issuer_id
    validated (validate issuer.certificate_pem req.certificate_pem)
    id ← fresh_id svc.environment
    replace_in_tx actor now id req
    return (new_responder id req now)
