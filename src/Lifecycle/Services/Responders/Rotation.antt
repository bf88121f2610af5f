-- ===== src/Lifecycle/Services/Responders/Rotation.antt =====
-- service.go: what RotateOCSPResponder leaves.
use ano_pki_community.Common.{
  ap, ◌∙◌, String, ◌≡◌, ◌≢◌, refl, sym, arith, subst, true, false, Bool, some, GoMap, lookup,
  insert, lookup-insert, lookup-insert_self, eq_iff, Time, Result, ok, err,
}
use ano_pki_community.Domain.{
  Issuer, OcspResponder, OcspResponderStatus, OcspResponderStatus-discrete,
}
use ano_pki_community.Store.Responders.{
  is_active, active_ocsp_responder_by_issuer, create_ocsp_responder as create_in,
  update_ocsp_responder_if_status as update_in,
}
use ano_pki_community.Store.Responders.Single.{
  IsSingle, create_ocsp_responder-IsSingle, update_ocsp_responder_if_status-IsSingle, create-parts,
  update-parts,
}
use ano_pki_community.Store.Responders.Active.{active_ocsp_responder_by_issuer-known}
use ano_pki_community.Store.Repository.{
  get_issuer, get_active_ocsp_responder_by_issuer, create_ocsp_responder,
  update_ocsp_responder_if_status,
}
use ano_pki_community.Lifecycle.World.{World, Op, bound}
use ano_pki_community.Lifecycle.World.Ensures.{
  Ensures, Ensures-ok, Ensures-in_tx, Ensures-guard, Ensures-step, Ensures-return, Ensures-known,
  Ensures-written, Ensures-then, Ensures-weaken,
}
use ano_pki_community.Lifecycle.Services.{Service}
use ano_pki_community.Lifecycle.Services.Audited.{
  Audited, Ensures-Audited, create_audit_event-Audited,
}
use ano_pki_community.Lifecycle.Services.Responders.{
  RotateOcspResponderRequest, disabled_responder, new_responder, current_responder, validated,
  replace_responder, replace_in_tx, rotate_ocsp_responder,
}

lookup-insert_other :
    (key j : String) (v : OcspResponder) (m : GoMap OcspResponder)
    → key ≢ j
    → lookup j (insert key v m) ≡ lookup j m
lookup-insert_other key j v m d = ground (arith, lookup-insert key j v m, eq_iff key j)

-- Behind a rotation, the issuer's active responder is the new one, the old one is stored as disabled,
-- and every issuer has at most one that is active.
abbrev pub IsRotated : OcspResponder → OcspResponder → Time → GoMap OcspResponder → Type 0
IsRotated old new now m =
    IsSingle m
    × (active_ocsp_responder_by_issuer m new.issuer_id ≡ ok new)
    × (lookup new.id m ≡ some new)
    × (lookup old.id m
        ≡ some (record old { status = OcspResponderStatus.disabled; updated_at = now }))

is_active-new :
    (id : String) (req : RotateOcspResponderRequest) (now : Time)
    → is_active (new_responder id req now) ≡ true
unfolding OcspResponderStatus-discrete
is_active-new id req now = refl

replaced-IsRotated :
    (old new : OcspResponder) (now : Time) (m0 m1 m2 : GoMap OcspResponder)
    → IsSingle m0
    → is_active new ≡ true
    → new.id ≢ old.id
    → update_in m0 (disabled_responder old now) OcspResponderStatus.active ≡ ok m1
    → create_in m1 new ≡ ok m2
    → IsRotated old new now m2
replaced-IsRotated old new now m0 m1 m2 single active fresh updated created =
    let dead = disabled_responder old now in
    let single1 =
      update_ocsp_responder_if_status-IsSingle m0 m1 dead OcspResponderStatus.active single
        updated in
    let single2 = create_ocsp_responder-IsSingle m1 m2 new single1 created in
    let written1 = (update-parts m0 m1 dead OcspResponderStatus.active updated).0 in
    let written2 = (create-parts m1 m2 new created).0 in
    let stored = ap (lookup new.id) written2 ∙ lookup-insert_self new.id new m1 in
    (
      single2,
      active_ocsp_responder_by_issuer-known m2 new single2 stored active,
      stored,
      ap (lookup old.id) written2
          ∙ (lookup-insert_other new.id old.id new m1 fresh
              ∙ (ap (lookup old.id) written1 ∙ lookup-insert_self old.id dead m0)),
    )

Ensures-current :
    {B : Type 0} (Q : B → World → Type 0) (k : OcspResponder → Op B) (issuer_id : String)
    (a : OcspResponder) (w : World)
    → active_ocsp_responder_by_issuer w.store.ocsp_responders issuer_id ≡ ok a
    → Ensures Q (k a w)
    → Ensures Q (bound k (current_responder issuer_id w))
unfolding bound get_active_ocsp_responder_by_issuer
Ensures-current Q k issuer_id a w e h = rw e h

-- The signer's answer changes nothing.
Ensures-validated :
    {B : Type 0} (Q : B → World → Type 0) (k : Unit {0} → Op B) (r : Result Bool) (w : World)
    → (r ≡ ok true → Ensures Q (k tt w))
    → Ensures Q (bound k (validated r w))
unfolding bound Ensures
Ensures-validated Q k (ok true) w h = h refl
Ensures-validated Q k (ok false) w h = tt
Ensures-validated Q k (err x) w h = tt

module _ (svc : Service) (actor : String) (now : Time) (old new : OcspResponder) where
  replace_responder-IsRotated :
      (w : World)
      → IsSingle w.store.ocsp_responders
      → is_active new ≡ true
      → new.id ≢ old.id
      → Ensures
          (λ u v. IsRotated old new now v.store.ocsp_responders)
          (replace_responder svc actor now new old w)
  unfolding update_ocsp_responder_if_status create_ocsp_responder
  replace_responder-IsRotated w single active fresh =
      let Q : Unit {0} → World → Type 0 = λ u v. IsRotated old new now v.store.ocsp_responders in
      Ensures-written Q _ _ _ w λ m1 updated.
        Ensures-Audited Q _ svc actor _ _ _ _ _ _ λ v1 (log1, same1).
          Ensures-written Q _ _ _ v1 λ m2 created.
            let at_m1 =
              subst (λ m. create_in m new ≡ ok m2) (ap (λ s. s.ocsp_responders) same1) created in
            let done =
              replaced-IsRotated old new now w.store.ocsp_responders m1 m2 single active fresh
                updated at_m1 in
            Ensures-weaken (λ u v. Audited (record v1.store { ocsp_responders = m2 }) v.store) Q _
              (λ u v (log2, same2).
                subst (IsRotated old new now) (sym (ap (λ s. s.ocsp_responders) same2)) done)
              (create_audit_event-Audited svc actor _ _ _ _ _ _)

-- What a rotation returns and leaves.
abbrev pub RotationResult :
    Service
    → (String → String → Result Bool)
    → RotateOcspResponderRequest
    → Issuer
    → OcspResponder
    → World
    → OcspResponder
    → World
    → Type 0
RotationResult svc validate req issuer old w result v =
    let now = svc.environment.reading w.readings in
    (result ≡ record {
      id = svc.environment.new_id w.ids;
      issuer_id = req.issuer_id;
      name = req.name;
      status = OcspResponderStatus.active;
      certificate_pem = req.certificate_pem;
      key_ref = req.key_ref;
      created_at = now;
      updated_at = now;
    })
    × (active_ocsp_responder_by_issuer v.store.ocsp_responders req.issuer_id ≡ ok result)
    × (validate issuer.certificate_pem req.certificate_pem ≡ ok true)
    × IsRotated old result now v.store.ocsp_responders

replaced_in_tx :
    (svc : Service) (actor : String) (now : Time) (req : RotateOcspResponderRequest) (id : String)
    (issuer : Issuer) (old : OcspResponder) (w : World)
    → IsSingle w.store.ocsp_responders
    → lookup req.issuer_id w.store.issuers ≡ some issuer
    → active_ocsp_responder_by_issuer w.store.ocsp_responders req.issuer_id ≡ ok old
    → id ≢ old.id
    → Ensures
        (λ u v. IsRotated old (new_responder id req now) now v.store.ocsp_responders)
        (replace_in_tx svc actor now id req w)
unfolding get_issuer
replaced_in_tx svc actor now req id issuer old w single known found fresh =
    let new = new_responder id req now in
    let Q : Unit {0} → World → Type 0 = λ u v. IsRotated old new now v.store.ocsp_responders in
    Ensures-in_tx Q _ w (
      Ensures-known Q _ _ issuer _ _ known (
        Ensures-current Q _ _ old _ found (
          replace_responder-IsRotated svc actor now old new w single (is_active-new id req now)
            fresh)))

-- A rotation that succeeds, where every issuer has at most one active responder, `old` is the one of the
-- request's issuer, and the generator's id is not that of `old`. It returns the new responder, of that
-- issuer and with the name, certificate and key of the request. Behind it that one is the issuer's
-- active responder, `old` is stored as disabled, every issuer still has at most one that is active, and
-- the signer has accepted the new certificate.
pub rotate_ocsp_responder_lem :
    (svc : Service) (validate : String → String → Result Bool) (actor : String)
    (req : RotateOcspResponderRequest) (issuer : Issuer) (old result : OcspResponder) (w w' : World)
    → IsSingle w.store.ocsp_responders
    → lookup req.issuer_id w.store.issuers ≡ some issuer
    → active_ocsp_responder_by_issuer w.store.ocsp_responders req.issuer_id ≡ ok old
    → svc.environment.new_id w.ids ≢ old.id
    → rotate_ocsp_responder svc validate actor req w ≡ (ok result, w')
    → RotationResult svc validate req issuer old w result w'
unfolding rotate_ocsp_responder get_issuer
rotate_ocsp_responder_lem svc validate actor req issuer old result w w' single known found fresh h =
    let Q = RotationResult svc validate req issuer old w in
    Ensures-ok Q _ result w'
      (Ensures-guard Q _ _ _ w λ given. Ensures-step Q _ _ _ (
        Ensures-known Q _ _ issuer _ _ known (
          Ensures-current Q _ _ old _ found (
            Ensures-validated Q _ _ _ λ accepted. Ensures-step Q _ _ _ (
              Ensures-then Q _ _ _
                (replaced_in_tx svc actor _ req _ issuer old _ single known found fresh)
                λ u v done. Ensures-return Q _ v (refl, done.1, accepted, done))))))
      h
