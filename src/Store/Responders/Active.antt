-- ===== src/Store/Responders/Active.antt =====
-- The active OCSP responder of an issuer, where at most one is active.
use ano_pki_community.Common.{
  ◌≡◌, refl, sym, subst, ◌∙◌, inl, inr, true, Option, none, some, GoMap, lookup, values, lookup-id,
  ok, Error, or_fail, ap,
}
use ano_pki_community.Domain.{OcspResponder}
use ano_pki_community.Store.Responders.{is_active, latest_active, active_ocsp_responder_by_issuer}
use ano_pki_community.Store.Responders.Single.{
  responder_id, IsSingle, latest_active-Found, nobody_of_none, serves-parts,
}

latest_of_single :
    (m : GoMap OcspResponder) (r : OcspResponder) (latest : Option OcspResponder)
    → IsSingle m
    → lookup r.id m ≡ some r
    → is_active r ≡ true
    → latest_active r.issuer_id none (values m) ≡ latest
    → latest ≡ some r
latest_of_single m r none s own a n = absurd (nobody_of_none r.issuer_id m r n own a refl)
latest_of_single m r (some x) s own a n =
    elim (latest_active-Found r.issuer_id none m x s.keyed n) [
      | inl never ↦ cc
      | inr (k, found, serving) ↦
          let (of_issuer, active) = serves-parts r.issuer_id x serving in
          let held : lookup x.id m ≡ some x =
            subst (λ j. lookup j m ≡ some x) (lookup-id responder_id k x m s.keyed found) found in
          let same = s.unique r x own held (a, active, sym of_issuer) in
          sym held ∙ ap (λ j. lookup j m) (sym same) ∙ own
    ]

pub active_ocsp_responder_by_issuer-known :
    (m : GoMap OcspResponder) (r : OcspResponder)
    → IsSingle m
    → lookup r.id m ≡ some r
    → is_active r ≡ true
    → active_ocsp_responder_by_issuer m r.issuer_id ≡ ok r
unfolding active_ocsp_responder_by_issuer
active_ocsp_responder_by_issuer-known m r s own a =
    ap (λ o. or_fail o Error.ocsp_responder_not_found) (latest_of_single m r _ s own a refl)
