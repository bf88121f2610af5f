-- ===== src/Domain/Status.antt =====
-- service/internal/domain/types.go: the string enumerations, a data type with the source's constants.
-- A text outside the declared constants has no counterpart.

pub data IdentityType : Type 0 where
  user machine service iot_device workload : IdentityType

unfoldable pub IdentityType-discrete : Discrete IdentityType
IdentityType-discrete = hlevel

pub data IdentityStatus : Type 0 where
  active disabled : IdentityStatus

unfoldable pub IdentityStatus-discrete : Discrete IdentityStatus
IdentityStatus-discrete = hlevel

pub data IssuerStatus : Type 0 where
  active disabled : IssuerStatus

unfoldable pub IssuerStatus-discrete : Discrete IssuerStatus
IssuerStatus-discrete = hlevel

pub data OcspResponderStatus : Type 0 where
  active disabled : OcspResponderStatus

unfoldable pub OcspResponderStatus-discrete : Discrete OcspResponderStatus
OcspResponderStatus-discrete = hlevel

pub data NotificationEndpointType : Type 0 where
  webhook : NotificationEndpointType

unfoldable pub NotificationEndpointType-discrete : Discrete NotificationEndpointType
NotificationEndpointType-discrete = hlevel

pub data NotificationEndpointStatus : Type 0 where
  active disabled : NotificationEndpointStatus

unfoldable pub NotificationEndpointStatus-discrete : Discrete NotificationEndpointStatus
NotificationEndpointStatus-discrete = hlevel

pub data EnrollmentStatus : Type 0 where
  pending approved rejected issued canceled : EnrollmentStatus

unfoldable pub EnrollmentStatus-discrete : Discrete EnrollmentStatus
EnrollmentStatus-discrete = hlevel

pub data IssuanceAttemptStatus : Type 0 where
  signing signed finalized failed : IssuanceAttemptStatus

unfoldable pub IssuanceAttemptStatus-discrete : Discrete IssuanceAttemptStatus
IssuanceAttemptStatus-discrete = hlevel

pub data CertificateStatus : Type 0 where
  valid suspended revoked expired : CertificateStatus

unfoldable pub CertificateStatus-discrete : Discrete CertificateStatus
CertificateStatus-discrete = hlevel

pub data CrlPublicationStatus : Type 0 where
  published : CrlPublicationStatus

unfoldable pub CrlPublicationStatus-discrete : Discrete CrlPublicationStatus
CrlPublicationStatus-discrete = hlevel

pub data OutboxMessageStatus : Type 0 where
  pending processing completed failed dead_letter : OutboxMessageStatus

unfoldable pub OutboxMessageStatus-discrete : Discrete OutboxMessageStatus
OutboxMessageStatus-discrete = hlevel

pub data JobAttemptStatus : Type 0 where
  succeeded failed : JobAttemptStatus

unfoldable pub JobAttemptStatus-discrete : Discrete JobAttemptStatus
JobAttemptStatus-discrete = hlevel

pub data ApiKeyStatus : Type 0 where
  active disabled : ApiKeyStatus

unfoldable pub ApiKeyStatus-discrete : Discrete ApiKeyStatus
ApiKeyStatus-discrete = hlevel

pub data ApiKeyScope : Type 0 where
  read write operator : ApiKeyScope

unfoldable pub ApiKeyScope-discrete : Discrete ApiKeyScope
ApiKeyScope-discrete = hlevel

pub data AcmeAccountStatus : Type 0 where
  valid deactivated : AcmeAccountStatus

unfoldable pub AcmeAccountStatus-discrete : Discrete AcmeAccountStatus
AcmeAccountStatus-discrete = hlevel

pub data AcmeOrderStatus : Type 0 where
  pending ready valid invalid : AcmeOrderStatus

unfoldable pub AcmeOrderStatus-discrete : Discrete AcmeOrderStatus
AcmeOrderStatus-discrete = hlevel

pub data AcmeAuthorizationStatus : Type 0 where
  pending valid invalid : AcmeAuthorizationStatus

unfoldable pub AcmeAuthorizationStatus-discrete : Discrete AcmeAuthorizationStatus
AcmeAuthorizationStatus-discrete = hlevel

pub data AcmeChallengeType : Type 0 where
  http01 dns01 : AcmeChallengeType

unfoldable pub AcmeChallengeType-discrete : Discrete AcmeChallengeType
AcmeChallengeType-discrete = hlevel

pub data AcmeChallengeStatus : Type 0 where
  pending processing valid invalid : AcmeChallengeStatus

unfoldable pub AcmeChallengeStatus-discrete : Discrete AcmeChallengeStatus
AcmeChallengeStatus-discrete = hlevel

pub data RevocationReason : Type 0 where
  key_compromise ca_compromise affiliation_changed superseded cessation_of_operation
        privilege_withdrawn unspecified :
      RevocationReason

unfoldable pub RevocationReason-discrete : Discrete RevocationReason
RevocationReason-discrete = hlevel

pub data IssuerKind : Type 0 where
  root_ca intermediate_ca : IssuerKind

unfoldable pub IssuerKind-discrete : Discrete IssuerKind
IssuerKind-discrete = hlevel
