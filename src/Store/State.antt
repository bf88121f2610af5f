-- ===== src/Store/State.antt =====
-- memory.go: the state of MemoryStore, its transactions, and the shape of its methods. The mutex makes
-- each method one step; a value in Go is copied where it goes in and out of a map, as values here are.
use ano_pki_community.Common.{[], GoMap, Result, ok, err}
use ano_pki_community.Domain.{
  Identity, Issuer, OcspResponder, NotificationEndpoint, CertificateProfile, Enrollment,
  Certificate, IssuanceAttempt, Revocation, CrlPublication, CrlGenerationClaim, OutboxMessage,
  JobAttempt, WebhookDelivery, ApiKey, AcmeAccount, AcmeOrder, AcmeAuthorization, AcmeChallenge,
}
use ano_pki_community.Audit.Verify.{empty_audit_chain_state}
use ano_pki_community.Audit.Memory.{AuditLog}

-- `audit` joins the fields auditEvents and auditState.
pub record MemoryStore : Type 0 where
  pub identities : GoMap Identity
  pub issuers : GoMap Issuer
  pub ocsp_responders : GoMap OcspResponder
  pub notifications : GoMap NotificationEndpoint
  pub profiles : GoMap CertificateProfile
  pub enrollments : GoMap Enrollment
  pub certificates : GoMap Certificate
  pub issuance_attempts : GoMap IssuanceAttempt
  pub revocations : GoMap Revocation
  pub crls : GoMap CrlPublication
  pub crl_claims : GoMap CrlGenerationClaim
  pub audit : AuditLog
  pub outbox : GoMap OutboxMessage
  pub job_attempts : GoMap JobAttempt
  pub webhook_deliveries : GoMap WebhookDelivery
  pub api_keys : GoMap ApiKey
  pub acme_accounts : GoMap AcmeAccount
  pub acme_orders : GoMap AcmeOrder
  pub acme_authzs : GoMap AcmeAuthorization
  pub acme_challenges : GoMap AcmeChallenge

unfoldable pub new_memory_store : MemoryStore
unfolding empty_audit_chain_state
new_memory_store = record {
  identities = [];
  issuers = [];
  ocsp_responders = [];
  notifications = [];
  profiles = [];
  enrollments = [];
  certificates = [];
  issuance_attempts = [];
  revocations = [];
  crls = [];
  crl_claims = [];
  audit = record { events = []; state = empty_audit_chain_state };
  outbox = [];
  job_attempts = [];
  webhook_deliveries = [];
  api_keys = [];
  acme_accounts = [];
  acme_orders = [];
  acme_authzs = [];
  acme_challenges = [];
}

-- A method: it returns a value or an error, and the store as it leaves it.
abbrev pub Repo : Type 0 → Type 0
Repo A = MemoryStore → Result A × MemoryStore

-- A method that only reads, and one that writes one map back unless it fails.
abbrev pub read : {A : Type 0} → (MemoryStore → Result A) → Repo A
read f s = (f s, s)

unfoldable pub written :
    {V : Type 0} → MemoryStore → (V → MemoryStore) → Result V → Result (Unit {0}) × MemoryStore
written s put (ok m) = (ok tt, put m)
written s put (err e) = (err e, s)

-- WithinTx: the function works on a copy of every map. If it returns no error, every map of the copy is
-- written back; if it does, none is. `E` is what the function's closure holds beside the store, which
-- stays.
abbrev pub memory_tx : MemoryStore → MemoryStore
memory_tx s = record {
  identities = s.identities;
  issuers = s.issuers;
  ocsp_responders = s.ocsp_responders;
  notifications = s.notifications;
  profiles = s.profiles;
  enrollments = s.enrollments;
  certificates = s.certificates;
  issuance_attempts = s.issuance_attempts;
  revocations = s.revocations;
  crls = s.crls;
  crl_claims = s.crl_claims;
  audit = record { events = s.audit.events; state = s.audit.state };
  outbox = s.outbox;
  job_attempts = s.job_attempts;
  webhook_deliveries = s.webhook_deliveries;
  api_keys = s.api_keys;
  acme_accounts = s.acme_accounts;
  acme_orders = s.acme_orders;
  acme_authzs = s.acme_authzs;
  acme_challenges = s.acme_challenges;
}

abbrev pub write_back : MemoryStore → MemoryStore → MemoryStore
write_back s tx = record s {
  identities = tx.identities;
  issuers = tx.issuers;
  ocsp_responders = tx.ocsp_responders;
  notifications = tx.notifications;
  profiles = tx.profiles;
  enrollments = tx.enrollments;
  certificates = tx.certificates;
  issuance_attempts = tx.issuance_attempts;
  revocations = tx.revocations;
  crls = tx.crls;
  crl_claims = tx.crl_claims;
  audit = record { events = tx.audit.events; state = tx.audit.state };
  outbox = tx.outbox;
  job_attempts = tx.job_attempts;
  webhook_deliveries = tx.webhook_deliveries;
  api_keys = tx.api_keys;
  acme_accounts = tx.acme_accounts;
  acme_orders = tx.acme_orders;
  acme_authzs = tx.acme_authzs;
  acme_challenges = tx.acme_challenges;
}

abbrev committed :
    {A E : Type 0} → MemoryStore → Result A × MemoryStore × E → Result A × MemoryStore × E
committed s (ok a, tx, e) = (ok a, write_back s tx, e)
committed s (err x, tx, e) = (err x, s, e)

unfoldable pub within_tx :
    {A E : Type 0}
    → (MemoryStore → E → Result A × MemoryStore × E)
    → MemoryStore
    → E
    → Result A × MemoryStore × E
within_tx fn s e = committed s (fn (memory_tx s) e)
