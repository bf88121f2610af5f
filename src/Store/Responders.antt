-- ===== src/Store/Responders.antt =====
-- memory.go: the map of OCSP responders, of which at most one of an issuer is active.
pub mod Single
pub mod Active
use ano_pki_community.Common.{
  String, Bool, true, Option, none, some, List, [], ◌∷◌, ◌==◌, ◌&&◌, ◌||◌, not, if◌then◌else◌,
  is_yes, GoMap, lookup, insert, values, select, sort_slice, earlier, after, equal, text_before,
  Result, ok, err, Error, or_fail, ◌>>=◌, ◌>>◌, reject_if,
}
use ano_pki_community.Domain.{OcspResponder, OcspResponderStatus, OcspResponderStatus-discrete}

abbrev pub is_active : OcspResponder → Bool
is_active r = is_yes (OcspResponderStatus-discrete r.status OcspResponderStatus.active)

abbrev pub serves : String → OcspResponder → Bool
serves issuer_id r = r.issuer_id == issuer_id && is_active r

abbrev pub newer_than : OcspResponder → OcspResponder → Bool
newer_than r active =
    after r.created_at active.created_at
    || (equal r.created_at active.created_at && text_before active.id r.id)

-- The loop of activeOCSPResponderByIssuer: `none` is `found == false`.
unfoldable pub latest_active :
    String → Option OcspResponder → List OcspResponder → Option OcspResponder
latest_active issuer_id best [] = best
latest_active issuer_id none (r ∷ rs) =
    latest_active issuer_id (if serves issuer_id r then some r else none) rs
latest_active issuer_id (some active) (r ∷ rs) =
    latest_active issuer_id
      (if serves issuer_id r && newer_than r active then some r else some active) rs

unfoldable pub active_ocsp_responder_by_issuer : GoMap OcspResponder → String → Result OcspResponder
active_ocsp_responder_by_issuer responders issuer_id =
    or_fail (latest_active issuer_id none (values responders)) Error.ocsp_responder_not_found

unfoldable pub list_ocsp_responders_by_issuer : GoMap OcspResponder → String → List OcspResponder
list_ocsp_responders_by_issuer responders issuer_id =
    sort_slice (λ a b. earlier a.created_at a.id b.created_at b.id)
      (select (λ r. r.issuer_id == issuer_id) (values responders))

-- `_, err := activeOCSPResponderByIssuer(...); err == nil`.
abbrev pub succeeds {ℓ} : {A : Type ℓ} → Result A → Bool
succeeds (ok a) = true
succeeds (err e) = Bool.false

-- The body of CreateOCSPResponder.
unfoldable pub create_ocsp_responder :
    GoMap OcspResponder → OcspResponder → Result (GoMap OcspResponder)
create_ocsp_responder responders r =
    if is_active r && succeeds (active_ocsp_responder_by_issuer responders r.issuer_id)
    then err Error.invalid_transition
    else ok (insert r.id r responders)

-- `active, err := ...; err == nil && active.ID != responder.ID`.
abbrev pub is_other : String → Result OcspResponder → Bool
is_other id (ok active) = not (active.id == id)
is_other id (err e) = Bool.false

unfoldable pub update_ocsp_responder_if_status :
    GoMap OcspResponder → OcspResponder → OcspResponderStatus → Result (GoMap OcspResponder)
update_ocsp_responder_if_status responders r current_status = do
  current ← or_fail (lookup r.id responders) Error.ocsp_responder_not_found
  reject_if (not (is_yes (OcspResponderStatus-discrete current.status current_status)))
      Error.invalid_transition
  reject_if (is_active r && is_other r.id (active_ocsp_responder_by_issuer responders r.issuer_id))
      Error.invalid_transition
  ok (insert r.id r responders)
