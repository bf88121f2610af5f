-- ===== src/Domain/Access.antt =====
-- service/internal/domain/types.go: API keys and the ACME resources.
use ano_pki_community.Common.{String, Bool, List, Time}
use ano_pki_community.Domain.Status.{
  ApiKeyStatus, ApiKeyScope, AcmeAccountStatus, AcmeOrderStatus, AcmeAuthorizationStatus,
  AcmeChallengeType, AcmeChallengeStatus,
}

pub record ApiKey : Type 0 where
  pub id : String
  pub name : String
  pub token_hash : String
  pub status : ApiKeyStatus
  pub actor : String
  pub scopes : List ApiKeyScope
  pub expires_at : Time
  pub last_used_at : Time
  pub created_at : Time
  pub updated_at : Time

pub record AcmeAccount : Type 0 where
  pub id : String
  pub contacts : List String
  pub status : AcmeAccountStatus
  pub terms_of_service_agreed : Bool
  pub key_thumbprint : String
  pub key_jwk_json : String
  pub created_at : Time
  pub updated_at : Time

pub record AcmeOrder : Type 0 where
  pub id : String
  pub account_id : String
  pub identity_id : String
  pub issuer_id : String
  pub certificate_profile_id : String
  pub status : AcmeOrderStatus
  pub csr_pem : String
  pub requested_subject : String
  pub requested_dns_names : List String
  pub requested_ip_addresses : List String
  pub requested_not_after : Time
  pub enrollment_id : String
  pub certificate_id : String
  pub expires_at : Time
  pub created_at : Time
  pub updated_at : Time

pub record AcmeAuthorization : Type 0 where
  pub id : String
  pub order_id : String
  pub identifier_type : String
  pub identifier_value : String
  pub status : AcmeAuthorizationStatus
  pub expires_at : Time
  pub validation_reuse_expires_at : Time
  pub created_at : Time
  pub updated_at : Time

pub record AcmeChallenge : Type 0 where
  pub id : String
  pub authorization_id : String
  pub type : AcmeChallengeType
  pub token : String
  pub status : AcmeChallengeStatus
  pub validated_at : Time
  pub created_at : Time
  pub updated_at : Time
