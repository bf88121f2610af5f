-- ===== src/Examples/Store.antt =====
-- The guarded maps of memory.go, each on a map to which a first value was added.
use ano_pki_community.Common.{
  ℤ, String, ◌≡◌, refl, true, [], ◌∷◌, GoMap, lookup, insert, values, ok, ℕ,
}
use ano_pki_community.Domain.{
  OcspResponder, OcspResponderStatus, OcspResponderStatus-discrete, Certificate, CertificateStatus,
  CrlPublication, CrlPublicationStatus, AcmeAccount, AcmeAccountStatus, AcmeAccountStatus-discrete,
}
use ano_pki_community.Store.Unique.{IsUnique}
use ano_pki_community.Store.Responders.{
  create_ocsp_responder, latest_active, active_ocsp_responder_by_issuer,
}
use ano_pki_community.Store.Responders.Single.{
  responder_id, ShareIssuer, IsSingle, create_ocsp_responder-IsSingle,
}
use ano_pki_community.Store.Certificates.{
  create_certificate, ensure_certificate_finalization_keys_available,
}
use ano_pki_community.Store.Certificates.Keys.{
  certificate_id, ShareKey, HasUniqueKeys, create_certificate-HasUniqueKeys,
}
use ano_pki_community.Store.Crls.{create_crl_publication, ensure_crl_publication_number_available}
use ano_pki_community.Store.Crls.Numbers.{
  publication_id, ShareNumber, HasUniqueNumbers, create_crl_publication-HasUniqueNumbers,
}
use ano_pki_community.Store.Access.{
  create_acme_account, update_acme_account_if_status, ensure_acme_account_thumbprint_available,
}
use ano_pki_community.Store.Access.Thumbprints.{
  account_id, ShareThumbprint, HasUniqueThumbprints, create_acme_account-HasUniqueThumbprints,
  update_acme_account_if_status-HasUniqueThumbprints,
}

empty-IsUnique : {V : Type 0} (id : V → String) (Shares : V → V → Type 0) → IsUnique id Shares []
unfolding lookup
empty-IsUnique id Shares = record { keyed = tt; unique = λ v w e f s. cc }

abbrev pub responder : String → OcspResponderStatus → OcspResponder
responder id status = record {
  id = id;
  issuer_id = "issuer-1";
  name = "ocsp";
  status = status;
  certificate_pem = "pem";
  key_ref = "key";
  created_at = 1;
  updated_at = 1;
}

abbrev pub one_responder : GoMap OcspResponder
one_responder = ("r1", responder "r1" OcspResponderStatus.active) ∷ []

pub one_responder-IsSingle : IsSingle one_responder
unfolding create_ocsp_responder active_ocsp_responder_by_issuer latest_active insert values
    OcspResponderStatus-discrete
one_responder-IsSingle =
    create_ocsp_responder-IsSingle [] one_responder (responder "r1" OcspResponderStatus.active)
      (empty-IsUnique responder_id ShareIssuer) refl

abbrev two_responders : GoMap OcspResponder
two_responders =
    ("r1", responder "r1" OcspResponderStatus.active)
    ∷ ("r2", responder "r2" OcspResponderStatus.disabled)
    ∷ []

second_added :
    create_ocsp_responder one_responder (responder "r2" OcspResponderStatus.disabled)
    ≡ ok two_responders
unfolding create_ocsp_responder OcspResponderStatus-discrete insert
second_added = refl

create_ocsp_responder-IsSingle_example : IsSingle two_responders
create_ocsp_responder-IsSingle_example =
    create_ocsp_responder-IsSingle one_responder two_responders
      (responder "r2" OcspResponderStatus.disabled) one_responder-IsSingle second_added

abbrev certificate : String → String → CertificateStatus → Certificate
certificate id serial status = record {
  id = id;
  identity_id = "identity-1";
  issuer_id = "issuer-1";
  enrollment_id = id;
  certificate_profile_id = "profile-1";
  serial_number = serial;
  subject = "CN=example";
  dns_names = [];
  ip_addresses = [];
  not_before = 1;
  not_after = 100;
  status = status;
  certificate_pem = "pem";
  renewal_notified_at = 0;
  created_at = 1;
  updated_at = 1;
}

abbrev one_certificate : GoMap Certificate
one_certificate = ("c1", certificate "c1" "01" CertificateStatus.valid) ∷ []

one_certificate-HasUniqueKeys : HasUniqueKeys one_certificate
unfolding create_certificate ensure_certificate_finalization_keys_available insert values
one_certificate-HasUniqueKeys =
    create_certificate-HasUniqueKeys [] one_certificate
      (certificate "c1" "01" CertificateStatus.valid) (empty-IsUnique certificate_id ShareKey) refl

abbrev two_certificates : GoMap Certificate
two_certificates =
    ("c1", certificate "c1" "01" CertificateStatus.valid)
    ∷ ("c2", certificate "c2" "02" CertificateStatus.valid)
    ∷ []

certificate_added :
    create_certificate one_certificate (certificate "c2" "02" CertificateStatus.valid)
    ≡ ok two_certificates
unfolding create_certificate ensure_certificate_finalization_keys_available insert values
certificate_added = refl

create_certificate-HasUniqueKeys_example : HasUniqueKeys two_certificates
create_certificate-HasUniqueKeys_example =
    create_certificate-HasUniqueKeys one_certificate two_certificates
      (certificate "c2" "02" CertificateStatus.valid) one_certificate-HasUniqueKeys
      certificate_added

abbrev publication : String → ℕ → CrlPublication
publication id number = record {
  id = id;
  issuer_id = "issuer-1";
  distribution_point = "http://crl.example/1";
  crl_number = ℤ.pos number;
  this_update = 1;
  next_update = 2;
  status = CrlPublicationStatus.published;
  crl_pem = "pem";
  created_at = 1;
  updated_at = 1;
}

abbrev one_publication : GoMap CrlPublication
one_publication = ("p1", publication "p1" 1) ∷ []

one_publication-HasUniqueNumbers : HasUniqueNumbers one_publication
unfolding create_crl_publication ensure_crl_publication_number_available insert values
one_publication-HasUniqueNumbers =
    create_crl_publication-HasUniqueNumbers [] one_publication (publication "p1" 1)
      (empty-IsUnique publication_id ShareNumber) refl

abbrev two_publications : GoMap CrlPublication
two_publications = ("p1", publication "p1" 1) ∷ ("p2", publication "p2" 2) ∷ []

publication_added :
    create_crl_publication one_publication (publication "p2" 2) ≡ ok two_publications
unfolding create_crl_publication ensure_crl_publication_number_available insert values
publication_added = refl

create_crl_publication-HasUniqueNumbers_example : HasUniqueNumbers two_publications
create_crl_publication-HasUniqueNumbers_example =
    create_crl_publication-HasUniqueNumbers one_publication two_publications (publication "p2" 2)
      one_publication-HasUniqueNumbers publication_added

abbrev account : String → String → AcmeAccount
account id thumbprint = record {
  id = id;
  contacts = [];
  status = AcmeAccountStatus.valid;
  terms_of_service_agreed = true;
  key_thumbprint = thumbprint;
  key_jwk_json = "{}";
  created_at = 1;
  updated_at = 1;
}

abbrev one_account : GoMap AcmeAccount
one_account = ("a1", account "a1" "k1") ∷ []

one_account-HasUniqueThumbprints : HasUniqueThumbprints one_account
unfolding create_acme_account ensure_acme_account_thumbprint_available insert values
one_account-HasUniqueThumbprints =
    create_acme_account-HasUniqueThumbprints [] one_account (account "a1" "k1")
      (empty-IsUnique account_id ShareThumbprint) refl

abbrev two_accounts : GoMap AcmeAccount
two_accounts = ("a1", account "a1" "k1") ∷ ("a2", account "a2" "k2") ∷ []

account_added : create_acme_account one_account (account "a2" "k2") ≡ ok two_accounts
unfolding create_acme_account ensure_acme_account_thumbprint_available insert values
account_added = refl

create_acme_account-HasUniqueThumbprints_example : HasUniqueThumbprints two_accounts
create_acme_account-HasUniqueThumbprints_example =
    create_acme_account-HasUniqueThumbprints one_account two_accounts (account "a2" "k2")
      one_account-HasUniqueThumbprints account_added

key_changed :
    update_acme_account_if_status one_account (account "a1" "k3") AcmeAccountStatus.valid
    ≡ ok (("a1", account "a1" "k3") ∷ [])
unfolding update_acme_account_if_status ensure_acme_account_thumbprint_available insert values
    lookup AcmeAccountStatus-discrete
key_changed = refl

update_acme_account_if_status-HasUniqueThumbprints_example :
    HasUniqueThumbprints (("a1", account "a1" "k3") ∷ [])
update_acme_account_if_status-HasUniqueThumbprints_example =
    update_acme_account_if_status-HasUniqueThumbprints one_account _ (account "a1" "k3")
      AcmeAccountStatus.valid one_account-HasUniqueThumbprints key_changed
