-- ===== src/Store/Crls/Latest.antt =====
-- memory.go, latestCRLPublicationByIssuer: the loop takes a publication that has a greater number or a
-- later time, so it need not end with the greatest number.
use ano_pki_community.Common.{Less, String, ◌≡◌, ◌<◌, [], ◌∷◌, values, eq_iff, arith, ok}
use ano_pki_community.Domain.{CrlPublication}
use ano_pki_community.Store.Crls.{latest_of, latest_crl_publication_by_issuer}

-- Of two publications of an issuer, where the one with the greater CRL number was created earlier,
-- the loop returns whichever it visits last: the lower number if that comes second. The order is
-- that in which Go visits the map.
pub latest_crl_publication_unstable :
    (issuer_id : String) (p q : CrlPublication)
    → p.issuer_id ≡ issuer_id
    → q.issuer_id ≡ issuer_id
    → Less q.crl_number p.crl_number
    → p.created_at < q.created_at
    → (latest_crl_publication_by_issuer ((p.id, p) ∷ (q.id, q) ∷ []) issuer_id ≡ ok q)
      × (latest_crl_publication_by_issuer ((q.id, q) ∷ (p.id, p) ∷ []) issuer_id ≡ ok p)
unfolding latest_crl_publication_by_issuer latest_of values
latest_crl_publication_unstable issuer_id p q a b n t = (
  ground (arith, eq_iff p.issuer_id issuer_id, eq_iff q.issuer_id issuer_id),
  ground (arith, eq_iff p.issuer_id issuer_id, eq_iff q.issuer_id issuer_id),
)
