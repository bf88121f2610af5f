-- ===== src/Store/Certificates/Keys.antt =====
-- The keys under which a certificate is finalized: its enrollment, and its issuer's serial number.
use ano_pki_community.Common.{
  String, ◌≡◌, sym, subst, ◌∙◌, lookup-id, ◌⊎◌, inl, inr, ◌≢◌, false, some, eq_iff, arith, GoMap,
  lookup, insert, values, any, ok,
}
use ano_pki_community.Domain.{Certificate, CertificateStatus}
use ano_pki_community.Store.Unique.{IsUnique, insert-IsUnique, insert-IsUnique_of_test}
use ano_pki_community.Store.Certificates.{
  holds_key_of, ensure_certificate_finalization_keys_available, create_certificate,
  update_certificate_if_status,
}

abbrev pub certificate_id : Certificate → String
certificate_id c = c.id

-- Two certificates of one enrollment, or with one serial number of one issuer; empty texts do not
-- count.
abbrev pub ShareKey : Certificate → Certificate → Type 0
ShareKey v w =
    ((v.enrollment_id ≢ "") × (v.enrollment_id ≡ w.enrollment_id))
    ⊎ ((v.issuer_id ≢ "")
        × (v.serial_number ≢ "")
        × (v.issuer_id ≡ w.issuer_id)
        × (v.serial_number ≡ w.serial_number))

abbrev pub HasUniqueKeys : GoMap Certificate → Type 0
HasUniqueKeys = IsUnique certificate_id ShareKey

ShareKey-sym : (v w : Certificate) → ShareKey v w → ShareKey w v
ShareKey-sym v w (inl (n, e)) = inl ((λ q. n (e ∙ q)), sym e)
ShareKey-sym v w (inr (n, k, e, f)) = inr ((λ q. n (e ∙ q)), (λ q. k (f ∙ q)), sym e, sym f)

ShareKey-moved :
    (r w stored : Certificate)
    → r.enrollment_id ≡ stored.enrollment_id
    → r.issuer_id ≡ stored.issuer_id
    → r.serial_number ≡ stored.serial_number
    → ShareKey r w
    → ShareKey w stored
ShareKey-moved r w stored e i n (inl (x, p)) = inl ((λ q. x (p ∙ q)), sym p ∙ e)
ShareKey-moved r w stored e i n (inr (x, y, p, q)) =
    inr ((λ z. x (p ∙ z)), (λ z. y (q ∙ z)), sym p ∙ i, sym q ∙ n)

holds_key_of-finds : (r w : Certificate) → holds_key_of r w ≡ false → ShareKey r w → w.id ≡ r.id
holds_key_of-finds r w t (inl (n, e)) =
    ground
      (arith, eq_iff w.id r.id, eq_iff r.enrollment_id "", eq_iff w.enrollment_id r.enrollment_id)
holds_key_of-finds r w t (inr (n, k, e, f)) = ground (
  arith,
  eq_iff w.id r.id,
  eq_iff r.enrollment_id "",
  eq_iff w.enrollment_id r.enrollment_id,
  eq_iff r.issuer_id "",
  eq_iff r.serial_number "",
  eq_iff w.issuer_id r.issuer_id,
  eq_iff w.serial_number r.serial_number,
)

create-parts :
    (m m' : GoMap Certificate) (r : Certificate)
    → create_certificate m r ≡ ok m'
    → (m' ≡ insert r.id r m) × (any (holds_key_of r) (values m) ≡ false)
unfolding create_certificate ensure_certificate_finalization_keys_available
create-parts m m' r h = ground arith

-- CreateCertificate never stores a second certificate for an enrollment, nor a second one with the
-- same issuer and serial number: keys that are unique among all certificates stay so.
pub create_certificate-HasUniqueKeys :
    (m m' : GoMap Certificate) (r : Certificate)
    → HasUniqueKeys m
    → create_certificate m r ≡ ok m'
    → HasUniqueKeys m'
create_certificate-HasUniqueKeys m m' r s h =
    let (e, none_found) = create-parts m m' r h in
    rw e (
      insert-IsUnique_of_test certificate_id ShareKey ShareKey-sym holds_key_of holds_key_of-finds r
        m s none_found)

update-parts :
    (m m' : GoMap Certificate) (r : Certificate) (current : CertificateStatus)
    → update_certificate_if_status m r current ≡ ok m'
    → (stored : Certificate) × (lookup r.id m ≡ some stored)
      × (stored.status ≡ current)
      × (m' ≡ insert r.id r m)
unfolding update_certificate_if_status
update-parts m m' r current h = ground arith

-- UpdateCertificateIfStatus does not check the keys. They stay unique when the caller leaves them as
-- they are stored, which the service's transitions do.
update_certificate_if_status-HasUniqueKeys :
    (m m' : GoMap Certificate) (r stored : Certificate) (current : CertificateStatus)
    → HasUniqueKeys m
    → lookup r.id m ≡ some stored
    → r.enrollment_id ≡ stored.enrollment_id
    → r.issuer_id ≡ stored.issuer_id
    → r.serial_number ≡ stored.serial_number
    → update_certificate_if_status m r current ≡ ok m'
    → HasUniqueKeys m'
update_certificate_if_status-HasUniqueKeys m m' r stored current s found e i n h =
    rw (update-parts m m' r current h).3 (
      insert-IsUnique certificate_id ShareKey ShareKey-sym r m s (λ w held share.
        let id_kept = lookup-id certificate_id r.id stored m s.keyed found in
        let own = subst (λ j. lookup j m ≡ some stored) id_kept found in
        s.unique w stored held own (ShareKey-moved r w stored e i n share) ∙ sym id_kept))
