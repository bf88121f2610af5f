-- ===== src/Lifecycle/Services/Enrollments/Decisions.antt =====
-- service.go: an enrollment is decided once.
use ano_pki_community.Common.{
  String, ◌≡◌, refl, ◌∙◌, ap, sym, is_yes_true, ◌⊎◌, inl, inr, Option-cases, Bool, Bool-cases,
  Result-cases, ◌+◌, true, Result, Time, false, some, lookup, insert, lookup-insert_self, subst, ok,
  err, Error,
}
use ano_pki_community.Domain.{Enrollment, EnrollmentStatus, EnrollmentStatus-discrete}
use ano_pki_community.Store.Issuance.{update_enrollment_if_status as conditional_write}
use ano_pki_community.Store.State.{within_tx, written}
use ano_pki_community.Store.Repository.{
  get_enrollment, get_identity, update_enrollment_if_status,
  create_audit_event as record_audit_event,
}
use ano_pki_community.Lifecycle.World.{World, bound, return, ◌>>◌, ◌>>=◌, Op, guard, repo, in_tx}
use ano_pki_community.Lifecycle.Services.{
  Service, Fields, is_blank, create_audit_event, add_identity_deployment_target,
}
use ano_pki_community.Lifecycle.Services.Certificates.Final.{IsRefused}
use ano_pki_community.Lifecycle.Services.Enrollments.{
  is_pending, approved_enrollment, rejected_enrollment, enrollment_fields, with_reason,
  approve_pending, reject_pending, approve_enrollment_with_reason, reject_enrollment,
}

-- An enrollment that is stored with another status than pending is left alone by both calls.
other_status_stays :
    (svc : Service) (actor id reason : String) (w : World) (e : Enrollment)
    → is_blank svc id ≡ false
    → lookup id w.store.enrollments ≡ some e
    → is_pending e ≡ false
    → IsRefused (approve_enrollment_with_reason svc actor id reason) w
      × IsRefused (reject_enrollment svc actor id) w
unfolding bound guard written approve_enrollment_with_reason reject_enrollment get_enrollment in_tx
    within_tx
other_status_stays svc actor id reason w e b k s = rw (b, k, s) ((refl, refl), (refl, refl))

target_keeps :
    (identity_id : String) (fields : Fields) (w : World)
    → (add_identity_deployment_target identity_id fields w).1 ≡ w
unfolding bound guard written add_identity_deployment_target get_identity
target_keeps identity_id fields w = elim (Option-cases (lookup identity_id w.store.identities)) [
  | inl e ↦ rw e refl
  | inr (identity, e) ↦ rw e refl
]

audit_keeps :
    (svc : Service) (actor action kind id : String) (at : Time) (fields : Fields) (w : World)
    → (create_audit_event svc actor action kind id at fields w).1.store.enrollments
      ≡ w.store.enrollments
unfolding bound guard written create_audit_event record_audit_event
audit_keeps svc actor action kind id at fields w = refl

-- The call has returned the decided enrollment, and it is stored.
abbrev Decided : Enrollment → Result Enrollment × World → Type 0
Decided next (ok e, w') = (e ≡ next) × (lookup next.id w'.store.enrollments ≡ some next)
Decided next (err x, w') = Unit {0}

audited-Decided :
    (next : Enrollment) (r : Result (Unit {0}) × World)
    → lookup next.id r.1.store.enrollments ≡ some next
    → Decided next (bound (λ _. return next) r)
unfolding bound guard written
audited-Decided next (ok u, v) k = (refl, k)
audited-Decided next (err x, v) k = tt

written-Decided :
    (svc : Service) (actor action : String) (at : Time) (next : Enrollment) (text : Fields → Fields)
    (r : Result Fields × World)
    → lookup next.id r.1.store.enrollments ≡ some next
    → Decided next (
        bound
          (λ fields.
            create_audit_event svc actor action "enrollment" next.id at (text fields)
            >> return next)
          r)
unfolding bound guard written
written-Decided svc actor action at next text (ok fields, v) k =
    audited-Decided next
      (create_audit_event svc actor action "enrollment" next.id at (text fields) v)
      (rw (audit_keeps svc actor action "enrollment" next.id at (text fields) v) k)
written-Decided svc actor action at next text (err x, v) k = tt

-- The pending enrollment that a decision was made of.
abbrev Decision : Enrollment → Enrollment → Result Enrollment × World → Type 0
Decision old next (ok e, w') =
    (old.status ≡ EnrollmentStatus.pending)
    × (e ≡ next)
    × (lookup next.id w'.store.enrollments ≡ some e)
Decision old next (err x, w') = Unit {0}

Decided-Decision :
    (old next : Enrollment) (r : Result Enrollment × World)
    → old.status ≡ EnrollmentStatus.pending
    → Decided next r
    → Decision old next r
Decided-Decision old next (ok e, w') p d = (p, d.0, d.1 ∙ ap some (sym d.0))
Decided-Decision old next (err x, w') p d = tt

-- The world with an enrollment written.
abbrev kept : Enrollment → World → World
kept e w = record w { store = record w.store { enrollments = insert e.id e w.store.enrollments } }

targeted-stored :
    (next : Enrollment) (fields : Fields) (w : World)
    → lookup next.id
        (add_identity_deployment_target next.identity_id fields (kept next w)).1.store.enrollments
      ≡ some next
targeted-stored next fields w =
    rw (target_keeps next.identity_id fields (kept next w))
      (lookup-insert_self next.id next w.store.enrollments)

approve_pending-Decision :
    (svc : Service) (actor reason : String) (now : Time) (old : Enrollment) (w : World)
    → lookup old.id w.store.enrollments ≡ some old
    → Decision old (approved_enrollment old actor now) (approve_pending svc actor reason now old w)
unfolding bound guard written update_enrollment_if_status conditional_write
approve_pending-Decision svc actor reason now old w k = elim (Bool-cases (is_pending old)) [
  | inl p ↦
      let next = approved_enrollment old actor now in
      rw (p, k, p)
        (Decided-Decision old next _ (is_yes_true _ p) (
          written-Decided svc actor "enrollment.approved" now next
            (λ fields. with_reason svc fields reason)
            (add_identity_deployment_target next.identity_id (enrollment_fields next "approved")
              (kept next w))
            (targeted-stored next (enrollment_fields next "approved") w)))
  | inr p ↦ rw p tt
]

reject_pending-Decision :
    (svc : Service) (actor : String) (now : Time) (old : Enrollment) (w : World)
    → lookup old.id w.store.enrollments ≡ some old
    → Decision old (rejected_enrollment old now) (reject_pending svc actor now old w)
unfolding bound guard written update_enrollment_if_status conditional_write
reject_pending-Decision svc actor now old w k = elim (Bool-cases (is_pending old)) [
  | inl p ↦
      let next = rejected_enrollment old now in
      rw (p, k, p)
        (Decided-Decision old next _ (is_yes_true _ p) (
          written-Decided svc actor "enrollment.rejected" now next (λ fields. fields)
            (add_identity_deployment_target next.identity_id (enrollment_fields next "rejected")
              (kept next w))
            (targeted-stored next (enrollment_fields next "rejected") w)))
  | inr p ↦ rw p tt
]

-- A transaction keeps what its function promises of a success.
in_tx-Decision :
    (old next : Enrollment) (f : Op Enrollment) (w : World)
    → Decision old next (f w)
    → Decision old next (in_tx f w)
unfolding in_tx within_tx
in_tx-Decision old next f w d = elim (Result-cases (f w).0) [
  | inl (e, p) ↦ rw p (rw p at d)
  | inr (x, p) ↦ rw p tt
]

found-Decision :
    (old next : Enrollment) (id : String) (f : Enrollment → Op Enrollment) (w : World)
    → lookup id w.store.enrollments ≡ some old
    → Decision old next (f old w)
    → Decision old next ((repo (get_enrollment id) >>= f) w)
unfolding bound guard written get_enrollment
found-Decision old next id f w k d = rw k d

guarded-Decision :
    (old next : Enrollment) (bad : Bool) (x : Error) (f : Op Enrollment) (w : World)
    → Decision old next (f w)
    → Decision old next ((guard bad x >> f) w)
unfolding bound guard written
guarded-Decision old next true x f w d = tt
guarded-Decision old next false x f w d = d

-- An enrollment is approved only from pending. A call that returns an approved enrollment, where `old`
-- is stored under the id, says that `old` is pending; what it returns is `old` with its status, the
-- approver and the two times changed and nothing else; and that is stored.
pub approve_enrollment_lem :
    (svc : Service) (actor id reason : String) (w w' : World) (old e : Enrollment)
    → lookup id w.store.enrollments ≡ some old
    → id ≡ old.id
    → approve_enrollment_with_reason svc actor id reason w ≡ (ok e, w')
    → let now = svc.environment.reading w.readings in
      (old.status ≡ EnrollmentStatus.pending)
      × (e ≡ record old {
        status = EnrollmentStatus.approved;
        approved_by = actor;
        approved_at = now;
        updated_at = now;
      })
      × (lookup old.id w'.store.enrollments ≡ some e)
unfolding bound guard written approve_enrollment_with_reason
approve_enrollment_lem svc actor id reason w w' old e found own h =
    let now = svc.environment.reading w.readings in
    let next = approved_enrollment old actor now in
    let w1 : World = record w { readings = w.readings + 1 } in
    subst (Decision old next) h (
      guarded-Decision old next (is_blank svc id) Error.invalid_request _ w (
        in_tx-Decision old next _ w1 (
          found-Decision old next id (approve_pending svc actor reason now) w1 found (
            approve_pending-Decision svc actor reason now old w1
              (subst (λ j. lookup j w.store.enrollments ≡ some old) own found)))))

-- An enrollment is rejected only from pending, in the same way: its status and the time of the change
-- are new, and it is stored.
pub reject_enrollment_lem :
    (svc : Service) (actor id : String) (w w' : World) (old e : Enrollment)
    → lookup id w.store.enrollments ≡ some old
    → id ≡ old.id
    → reject_enrollment svc actor id w ≡ (ok e, w')
    → let now = svc.environment.reading w.readings in
      (old.status ≡ EnrollmentStatus.pending)
      × (e ≡ record old { status = EnrollmentStatus.rejected; updated_at = now })
      × (lookup old.id w'.store.enrollments ≡ some e)
unfolding bound guard written reject_enrollment
reject_enrollment_lem svc actor id w w' old e found own h =
    let now = svc.environment.reading w.readings in
    let next = rejected_enrollment old now in
    let w1 : World = record w { readings = w.readings + 1 } in
    subst (Decision old next) h (
      guarded-Decision old next (is_blank svc id) Error.invalid_request _ w (
        in_tx-Decision old next _ w1 (
          found-Decision old next id (reject_pending svc actor now) w1 found (
            reject_pending-Decision svc actor now old w1
              (subst (λ j. lookup j w.store.enrollments ≡ some old) own found)))))

-- A decision is final. Behind an approval or a rejection of the enrollment under `id` that succeeded,
-- every approval and every rejection of it, by whichever actor and for whichever reason, fails with
-- ErrInvalidTransition and writes nothing.
pub decided_is_final :
    (svc : Service) (actor reason who text id : String) (w w' : World) (old e : Enrollment)
    → is_blank svc id ≡ false
    → lookup id w.store.enrollments ≡ some old
    → id ≡ old.id
    → (approve_enrollment_with_reason svc actor id reason w ≡ (ok e, w'))
      ⊎ (reject_enrollment svc actor id w ≡ (ok e, w'))
    → IsRefused (approve_enrollment_with_reason svc who id text) w'
      × IsRefused (reject_enrollment svc who id) w'
unfolding EnrollmentStatus-discrete
decided_is_final svc actor reason who text id w w' old e given found own (inl h) =
    let (pending, made, stored) =
      approve_enrollment_lem svc actor id reason w w' old e found own h in
    other_status_stays svc who id text w' e given
      (ap (λ j. lookup j w'.store.enrollments) own ∙ stored) (ap is_pending made)
decided_is_final svc actor reason who text id w w' old e given found own (inr h) =
    let (pending, made, stored) = reject_enrollment_lem svc actor id w w' old e found own h in
    other_status_stays svc who id text w' e given
      (ap (λ j. lookup j w'.store.enrollments) own ∙ stored) (ap is_pending made)
