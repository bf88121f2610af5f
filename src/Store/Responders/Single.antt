-- ===== src/Store/Responders/Single.antt =====
-- Only one OCSP responder of an issuer is active at a time.
use ano_pki_community.Common.{
  String, ◌≡◌, refl, sym, subst, ◌∙◌, ◌⊎◌, inl, inr, ◌≢◌, Bool, true, false, Option, none, some,
  List, [], ◌∷◌, eq_iff, ◌&&◌, arith, Bool-cases, GoMap, lookup, insert, values, any, IsKeyed,
  lookup-any, lookup-id, lookup-cons, lookup-cons_self, some_inj, ok, Error, or_fail, if◌then◌else◌,
}
use ano_pki_community.Domain.{OcspResponder, OcspResponderStatus}
use ano_pki_community.Store.Unique.{IsUnique, insert-IsUnique}
use ano_pki_community.Store.Responders.{
  is_active, serves, newer_than, is_other, latest_active, active_ocsp_responder_by_issuer,
  create_ocsp_responder, update_ocsp_responder_if_status,
}

abbrev pub responder_id : OcspResponder → String
responder_id r = r.id

-- Both are active, for one issuer.
abbrev pub ShareIssuer : OcspResponder → OcspResponder → Type 0
ShareIssuer v w = (is_active v ≡ true) × (is_active w ≡ true) × (v.issuer_id ≡ w.issuer_id)

-- Two active responders of an issuer are one.
abbrev pub IsSingle : GoMap OcspResponder → Type 0
IsSingle = IsUnique responder_id ShareIssuer

ShareIssuer-sym : (v w : OcspResponder) → ShareIssuer v w → ShareIssuer w v
ShareIssuer-sym v w s = (s.1, s.0, sym s.2)

latest_active-some :
    (i : String) (a : OcspResponder) (rs : List OcspResponder) → latest_active i (some a) rs ≢ none
unfolding latest_active
latest_active-some i a [] = λ e. cc
latest_active-some i a (r ∷ rs) = elim (Bool-cases (serves i r && newer_than r a)) [
  | inl q ↦ rw q (latest_active-some i r rs)
  | inr q ↦ rw q (latest_active-some i a rs)
]

latest_active-none :
    (i : String) (rs : List OcspResponder)
    → latest_active i none rs ≡ none
    → any (serves i) rs ≡ false
unfolding latest_active
latest_active-none i [] e = refl
latest_active-none i (r ∷ rs) e = elim (Bool-cases (serves i r)) [
  | inl q ↦ absurd (latest_active-some i r rs (rw (q, latest_active) at e))
  | inr q ↦ rw q (latest_active-none i rs (rw (q, latest_active) at e))
]

and-left : (a b : Bool) → (a && b) ≡ true → a ≡ true
and-left a b h = ground arith

pub serves-parts :
    (i : String) (r : OcspResponder) → serves i r ≡ true → (r.issuer_id ≡ i) × (is_active r ≡ true)
serves-parts i r h = ground (arith, eq_iff r.issuer_id i)

-- The responder that the loop ends with is the one it began with, or an active one of the map.
abbrev Found : String → Option OcspResponder → GoMap OcspResponder → OcspResponder → Type 0
Found i best m a = (best ≡ some a) ⊎ ((k : String) × (lookup k m ≡ some a) × (serves i a ≡ true))

Found-cons :
    (i j : String) (v : OcspResponder) (best : Option OcspResponder) (m : GoMap OcspResponder)
    (a : OcspResponder)
    → lookup j m ≡ none
    → (test : Bool) → (test ≡ true → serves i v ≡ true)
    → Found i (if test then some v else best) m a
    → Found i best ((j, v) ∷ m) a
Found-cons i j v best m a h true t (inl e) =
    inr (j, lookup-cons_self j v m ∙ e, subst (λ r. serves i r ≡ true) (some_inj v a e) (t refl))
Found-cons i j v best m a h false t (inl e) = inl e
Found-cons i j v best m a h test t (inr (k, e, s)) = inr (k, lookup-cons j k v a m h e, s)

pub latest_active-Found :
    (i : String) (best : Option OcspResponder) (m : GoMap OcspResponder) (a : OcspResponder)
    → IsKeyed responder_id m
    → latest_active i best (values m) ≡ some a
    → Found i best m a
unfolding latest_active values
latest_active-Found i best [] a h e = inl e
latest_active-Found i none ((j, v) ∷ m) a h e =
    Found-cons i j v none m a h.1 (serves i v) (λ q. q)
      (latest_active-Found i (if serves i v then some v else none) m a h.2 e)
latest_active-Found i (some b) ((j, v) ∷ m) a h e =
    Found-cons i j v (some b) m a h.1 (serves i v && newer_than v b) (and-left (serves i v) _)
      (latest_active-Found i (if serves i v && newer_than v b then some v else some b) m a h.2 e)

pub create-parts :
    (m m' : GoMap OcspResponder) (r : OcspResponder)
    → create_ocsp_responder m r ≡ ok m'
    → (m' ≡ insert r.id r m)
      × (is_active r ≡ true → latest_active r.issuer_id none (values m) ≡ none)
unfolding create_ocsp_responder active_ocsp_responder_by_issuer
create-parts m m' r h = ground arith

-- What an update relies on when it lets an active responder in.
abbrev OnlySelf : OcspResponder → Option OcspResponder → Type 0
OnlySelf r none = Unit {0}
OnlySelf r (some a) = a.id ≡ r.id

update_tests :
    (r : OcspResponder) (latest : Option OcspResponder)
    → (is_active r && is_other r.id (or_fail latest Error.ocsp_responder_not_found)) ≡ false
    → is_active r ≡ true
    → OnlySelf r latest
update_tests r none h a = tt
update_tests r (some x) h a = ground (arith, eq_iff x.id r.id)

pub update-parts :
    (m m' : GoMap OcspResponder) (r : OcspResponder) (current : OcspResponderStatus)
    → update_ocsp_responder_if_status m r current ≡ ok m'
    → (m' ≡ insert r.id r m)
      × ((is_active r && is_other r.id (active_ocsp_responder_by_issuer m r.issuer_id)) ≡ false)
unfolding update_ocsp_responder_if_status
update-parts m m' r current h = ground arith

pub nobody_of_none :
    (i : String) (m : GoMap OcspResponder) (w : OcspResponder)
    → latest_active i none (values m) ≡ none
    → lookup w.id m ≡ some w
    → is_active w ≡ true
    → w.issuer_id ≢ i
nobody_of_none i m w n e a q =
    let misses = lookup-any (serves i) w.id w m (latest_active-none i (values m) n) e in
    ground (arith, eq_iff w.issuer_id i)

alone_of_OnlySelf :
    (r : OcspResponder) (m : GoMap OcspResponder) (latest : Option OcspResponder)
    → IsSingle m
    → latest_active r.issuer_id none (values m) ≡ latest
    → OnlySelf r latest
    → (w : OcspResponder) → lookup w.id m ≡ some w
    → is_active w ≡ true
    → w.issuer_id ≡ r.issuer_id
    → w.id ≡ r.id
alone_of_OnlySelf r m none s n o w e a q = absurd (nobody_of_none r.issuer_id m w n e a q)
alone_of_OnlySelf r m (some x) s n o w e a q =
    elim (latest_active-Found r.issuer_id none m x s.keyed n) [
      | inl never ↦ cc
      | inr (k, found, serving) ↦
          let parts = serves-parts r.issuer_id x serving in
          let own : lookup x.id m ≡ some x =
            subst (λ j. lookup j m ≡ some x) (lookup-id responder_id k x m s.keyed found) found in
          s.unique w x e own (a, parts.1, q ∙ sym parts.0) ∙ o
    ]

-- CreateOCSPResponder keeps every issuer at one active responder at most.
pub create_ocsp_responder-IsSingle :
    (m m' : GoMap OcspResponder) (r : OcspResponder)
    → IsSingle m
    → create_ocsp_responder m r ≡ ok m'
    → IsSingle m'
create_ocsp_responder-IsSingle m m' r s h =
    let (e, none_active) = create-parts m m' r h in
    rw e (
      insert-IsUnique responder_id ShareIssuer ShareIssuer-sym r m s (λ w found share.
        absurd (nobody_of_none r.issuer_id m w (none_active share.0) found share.1 (sym share.2))))

-- UpdateOCSPResponderIfStatus keeps every issuer at one active responder at most.
pub update_ocsp_responder_if_status-IsSingle :
    (m m' : GoMap OcspResponder) (r : OcspResponder) (current : OcspResponderStatus)
    → IsSingle m
    → update_ocsp_responder_if_status m r current ≡ ok m'
    → IsSingle m'
unfolding active_ocsp_responder_by_issuer
update_ocsp_responder_if_status-IsSingle m m' r current s h =
    let (e, test) = update-parts m m' r current h in
    rw e (
      insert-IsUnique responder_id ShareIssuer ShareIssuer-sym r m s (λ w found share.
        alone_of_OnlySelf r m _ s refl (update_tests r _ test share.0) w found share.1
          (sym share.2)))
