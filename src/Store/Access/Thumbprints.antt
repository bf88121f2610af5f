-- ===== src/Store/Access/Thumbprints.antt =====
-- An ACME account key belongs to one account.
use ano_pki_community.Common.{
  String, ◌≡◌, sym, ◌∙◌, ◌≢◌, Bool, false, ◌==◌, eq_iff, ◌&&◌, not, arith, refl, List, [], ◌∷◌,
  GoMap, insert, values, any, ok,
}
use ano_pki_community.Domain.{AcmeAccount, AcmeAccountStatus}
use ano_pki_community.Store.Unique.{IsUnique, insert-IsUnique_of_test}
use ano_pki_community.Store.Access.{
  takes_thumbprint_of, ensure_acme_account_thumbprint_available, create_acme_account,
  update_acme_account_if_status,
}

abbrev pub account_id : AcmeAccount → String
account_id a = a.id

abbrev pub ShareThumbprint : AcmeAccount → AcmeAccount → Type 0
ShareThumbprint v w = (v.key_thumbprint ≢ "") × (v.key_thumbprint ≡ w.key_thumbprint)

abbrev pub HasUniqueThumbprints : GoMap AcmeAccount → Type 0
HasUniqueThumbprints = IsUnique account_id ShareThumbprint

ShareThumbprint-sym : (v w : AcmeAccount) → ShareThumbprint v w → ShareThumbprint w v
ShareThumbprint-sym v w s = ((λ q. s.0 (s.1 ∙ q)), sym s.1)

-- The whole guard as a test: the thumbprint is set and taken.
abbrev thumbprint_taken : AcmeAccount → AcmeAccount → Bool
thumbprint_taken r w = not (r.key_thumbprint == "") && takes_thumbprint_of r w

thumbprint_taken-finds :
    (r w : AcmeAccount) → thumbprint_taken r w ≡ false → ShareThumbprint r w → w.id ≡ r.id
thumbprint_taken-finds r w t s =
    ground (
      arith,
      eq_iff w.id r.id,
      eq_iff r.key_thumbprint "",
      eq_iff w.key_thumbprint r.key_thumbprint,
    )

any-and :
    (b : Bool) (r : AcmeAccount) (ws : List AcmeAccount)
    → (b && any (takes_thumbprint_of r) ws) ≡ false
    → any (λ w. b && takes_thumbprint_of r w) ws ≡ false
any-and b r [] h = refl
any-and b r (w ∷ ws) h = ground (arith, any-and b r ws)

ensure-parts :
    (m : GoMap AcmeAccount) (r : AcmeAccount)
    → ensure_acme_account_thumbprint_available m r ≡ ok tt
    → (not (r.key_thumbprint == "") && any (takes_thumbprint_of r) (values m)) ≡ false
unfolding ensure_acme_account_thumbprint_available
ensure-parts m r h = ground arith

stored-HasUniqueThumbprints :
    (m : GoMap AcmeAccount) (r : AcmeAccount)
    → HasUniqueThumbprints m
    → ensure_acme_account_thumbprint_available m r ≡ ok tt
    → HasUniqueThumbprints (insert r.id r m)
stored-HasUniqueThumbprints m r s h =
    insert-IsUnique_of_test account_id ShareThumbprint ShareThumbprint-sym thumbprint_taken
      thumbprint_taken-finds r m s (any-and _ r (values m) (ensure-parts m r h))

create-parts :
    (m m' : GoMap AcmeAccount) (r : AcmeAccount)
    → create_acme_account m r ≡ ok m'
    → (m' ≡ insert r.id r m) × (ensure_acme_account_thumbprint_available m r ≡ ok tt)
unfolding create_acme_account
create-parts m m' r h = ground arith

update-parts :
    (m m' : GoMap AcmeAccount) (r : AcmeAccount) (current : AcmeAccountStatus)
    → update_acme_account_if_status m r current ≡ ok m'
    → (m' ≡ insert r.id r m) × (ensure_acme_account_thumbprint_available m r ≡ ok tt)
unfolding update_acme_account_if_status
update-parts m m' r current h = ground arith

-- CreateACMEAccount never stores a second account with a key thumbprint that another account has.
pub create_acme_account-HasUniqueThumbprints :
    (m m' : GoMap AcmeAccount) (r : AcmeAccount)
    → HasUniqueThumbprints m
    → create_acme_account m r ≡ ok m'
    → HasUniqueThumbprints m'
create_acme_account-HasUniqueThumbprints m m' r s h =
    let (e, available) = create-parts m m' r h in rw e (stored-HasUniqueThumbprints m r s available)

-- UpdateACMEAccountIfStatus, by which a key is changed too, keeps the thumbprints unique.
pub update_acme_account_if_status-HasUniqueThumbprints :
    (m m' : GoMap AcmeAccount) (r : AcmeAccount) (current : AcmeAccountStatus)
    → HasUniqueThumbprints m
    → update_acme_account_if_status m r current ≡ ok m'
    → HasUniqueThumbprints m'
update_acme_account_if_status-HasUniqueThumbprints m m' r current s h =
    let (e, available) = update-parts m m' r current h in
    rw e (stored-HasUniqueThumbprints m r s available)
