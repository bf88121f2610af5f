-- ===== src/Domain/Pki.antt =====
-- service/internal/domain/types.go: identities, issuers, profiles, enrollments, certificates, revocations and CRLs.
use ano_pki_community.Common.{ℤ, ℕ, String, Bool, Option, List, Time}
use ano_pki_community.Domain.Status.{
  IdentityType, IdentityStatus, IssuerStatus, OcspResponderStatus, NotificationEndpointType,
  NotificationEndpointStatus, EnrollmentStatus, IssuanceAttemptStatus, CertificateStatus,
  CrlPublicationStatus, RevocationReason, IssuerKind,
}

pub record Identity : Type 0 where
  pub id : String
  pub type : IdentityType
  pub name : String
  pub external_id : String
  pub owner : String
  pub team : String
  pub service : String
  pub environment : String
  pub deployment_target : String
  pub last_seen_at : Time
  pub metadata_json : String
  pub allowed_dns_names : List String
  pub allowed_ip_addresses : List String
  pub status : IdentityStatus
  pub created_at : Time
  pub updated_at : Time

pub record Issuer : Type 0 where
  pub id : String
  pub name : String
  pub kind : IssuerKind
  pub status : IssuerStatus
  pub parent_issuer_id : String
  pub certificate_pem : String
  pub key_ref : String
  pub aia_url : String
  pub crl_distribution_points : List String
  pub trust_anchor : Bool
  pub created_at : Time
  pub updated_at : Time

pub record OcspResponder : Type 0 where
  pub id : String
  pub issuer_id : String
  pub name : String
  pub status : OcspResponderStatus
  pub certificate_pem : String
  pub key_ref : String
  pub created_at : Time
  pub updated_at : Time

pub record NotificationEndpoint : Type 0 where
  pub id : String
  pub name : String
  pub type : NotificationEndpointType
  pub status : NotificationEndpointStatus
  pub url : String
  pub secret : String
  pub event_types : List String
  pub created_at : Time
  pub updated_at : Time

pub record StringListExtensionPolicy : Type 0 where
  pub critical : Bool
  pub values : List String

pub record BasicConstraintsPolicy : Type 0 where
  pub critical : Bool
  pub ca : Bool
  pub max_path_len : Option ℕ

pub record CertificateProfile : Type 0 where
  pub id : String
  pub name : String
  pub description : String
  pub issuer_id : String
  pub validity_period_seconds : ℕ
  pub public_tls : Bool
  pub subject_template : String
  pub allowed_dns_patterns : List String
  pub allowed_ip_ranges : List String
  pub allowed_key_algorithms : List String
  pub min_key_size_bits : ℕ
  pub allowed_signature_algorithms : List String
  pub key_usage : StringListExtensionPolicy
  pub extended_key_usage : StringListExtensionPolicy
  pub basic_constraints : BasicConstraintsPolicy
  pub subject_key_identifier : Bool
  pub authority_key_identifier : Bool
  pub created_at : Time
  pub updated_at : Time

pub record Enrollment : Type 0 where
  pub id : String
  pub identity_id : String
  pub issuer_id : String
  pub certificate_profile_id : String
  pub source_certificate_id : String
  pub csr_pem : String
  pub status : EnrollmentStatus
  pub requested_subject : String
  pub requested_dns_names : List String
  pub requested_ip_addresses : List String
  pub csr_dns_names : List String
  pub csr_ip_addresses : List String
  pub requested_not_after : Time
  pub approved_by : String
  pub approved_at : Time
  pub created_at : Time
  pub updated_at : Time

pub record Certificate : Type 0 where
  pub id : String
  pub identity_id : String
  pub issuer_id : String
  pub enrollment_id : String
  pub certificate_profile_id : String
  pub serial_number : String
  pub subject : String
  pub dns_names : List String
  pub ip_addresses : List String
  pub not_before : Time
  pub not_after : Time
  pub status : CertificateStatus
  pub certificate_pem : String
  pub renewal_notified_at : Time
  pub created_at : Time
  pub updated_at : Time

pub record IssuanceAttempt : Type 0 where
  pub enrollment_id : String
  pub status : IssuanceAttemptStatus
  pub lease_expires_at : Time
  pub certificate_id : String
  pub certificate_pem : String
  pub serial_number : String
  pub subject : String
  pub not_before : Time
  pub not_after : Time
  pub signing_started_at : Time
  pub signed_at : Time
  pub finalized_at : Time
  pub last_error : String
  pub signing_evidence_json : String
  pub created_at : Time
  pub updated_at : Time

pub record Revocation : Type 0 where
  pub id : String
  pub certificate_id : String
  pub reason : RevocationReason
  pub revoked_by : String
  pub revoked_at : Time
  pub created_at : Time

pub record RevokedCertificateEntry : Type 0 where
  pub certificate_id : String
  pub serial_number : String
  pub revoked_at : Time
  pub reason : RevocationReason

pub record CrlPublication : Type 0 where
  pub id : String
  pub issuer_id : String
  pub distribution_point : String
  pub crl_number : ℤ
  pub this_update : Time
  pub next_update : Time
  pub status : CrlPublicationStatus
  pub crl_pem : String
  pub created_at : Time
  pub updated_at : Time

pub record CrlGenerationClaim : Type 0 where
  pub issuer_id : String
  pub distribution_point : String
  pub crl_number : ℤ
  pub lease_expires_at : Time
  pub created_at : Time
  pub updated_at : Time
