-- ===== src/Store/Crls/Numbers.antt =====
-- A CRL number is published once for an issuer's distribution point.
use ano_pki_community.Common.{
  eq_int64_iff, String, ◌≡◌, sym, false, eq_iff, arith, GoMap, insert, values, any, ok,
}
use ano_pki_community.Domain.{CrlPublication}
use ano_pki_community.Store.Unique.{IsUnique, insert-IsUnique_of_test}
use ano_pki_community.Store.Crls.{
  takes_number_of, ensure_crl_publication_number_available, create_crl_publication,
}

abbrev pub publication_id : CrlPublication → String
publication_id p = p.id

abbrev pub ShareNumber : CrlPublication → CrlPublication → Type 0
ShareNumber v w =
    (v.issuer_id ≡ w.issuer_id)
    × (v.distribution_point ≡ w.distribution_point)
    × (v.crl_number ≡ w.crl_number)

abbrev pub HasUniqueNumbers : GoMap CrlPublication → Type 0
HasUniqueNumbers = IsUnique publication_id ShareNumber

ShareNumber-sym : (v w : CrlPublication) → ShareNumber v w → ShareNumber w v
ShareNumber-sym v w s = (sym s.0, sym s.1, sym s.2)

takes_number_of-finds :
    (r w : CrlPublication) → takes_number_of r w ≡ false → ShareNumber r w → w.id ≡ r.id
takes_number_of-finds r w t s = ground (
  arith,
  eq_iff w.id r.id,
  eq_iff w.issuer_id r.issuer_id,
  eq_iff w.distribution_point r.distribution_point,
  eq_int64_iff w.crl_number r.crl_number,
)

create-parts :
    (m m' : GoMap CrlPublication) (r : CrlPublication)
    → create_crl_publication m r ≡ ok m'
    → (m' ≡ insert r.id r m) × (any (takes_number_of r) (values m) ≡ false)
unfolding create_crl_publication ensure_crl_publication_number_available
create-parts m m' r h = ground arith

-- CreateCRLPublication never stores a second publication with the same issuer, distribution point
-- and CRL number.
pub create_crl_publication-HasUniqueNumbers :
    (m m' : GoMap CrlPublication) (r : CrlPublication)
    → HasUniqueNumbers m
    → create_crl_publication m r ≡ ok m'
    → HasUniqueNumbers m'
create_crl_publication-HasUniqueNumbers m m' r s h =
    let (e, none_found) = create-parts m m' r h in
    rw e (
      insert-IsUnique_of_test publication_id ShareNumber ShareNumber-sym takes_number_of
        takes_number_of-finds r m s none_found)
