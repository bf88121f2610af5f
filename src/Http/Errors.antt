-- ===== src/Http/Errors.antt =====
-- httpapi/server.go: the status and the message that a client gets for an error. An error that is none of
-- the domain's own is `other_error`; one that wraps ErrAuditIntegrity is `audit_integrity`.
use ano_pki_community.Common.{String, ℕ, ◌≡◌, refl, eqb, ◌||◌, if◌then◌else◌, Error}

-- The texts of domain/errors.go, by errors.Is in the order of the switch; an error without a case of
-- its own falls to the last.
unfoldable pub public_error_message : Error → String
public_error_message Error.invalid_request = "invalid request"
public_error_message Error.unsupported_media_type = "unsupported media type"
public_error_message Error.unauthorized = "unauthorized"
public_error_message Error.forbidden = "forbidden"
public_error_message Error.rate_limited = "rate limited"
public_error_message Error.invalid_transition = "invalid lifecycle transition"
public_error_message Error.identity_not_found = "identity not found"
public_error_message Error.issuer_not_found = "issuer not found"
public_error_message Error.ocsp_responder_not_found = "ocsp responder not found"
public_error_message Error.notification_endpoint_not_found = "notification endpoint not found"
public_error_message Error.certificate_profile_not_found = "certificate profile not found"
public_error_message Error.enrollment_not_found = "enrollment not found"
public_error_message Error.certificate_not_found = "certificate not found"
public_error_message Error.crl_publication_not_found = "crl publication not found"
public_error_message Error.outbox_message_not_found = "outbox message not found"
public_error_message Error.api_key_not_found = "api key not found"
public_error_message Error.acme_account_not_found = "acme account not found"
public_error_message Error.acme_account_deactivated = "acme account deactivated"
public_error_message Error.acme_order_not_found = "acme order not found"
public_error_message Error.acme_authorization_not_found = "acme authorization not found"
public_error_message Error.acme_challenge_not_found = "acme challenge not found"
public_error_message Error.csr_parse_failed = "csr parse failed"
public_error_message Error.certificate_issuance_failed = "certificate issuance failed"
public_error_message Error.crl_generation_failed = "crl generation failed"
public_error_message Error.ocsp_decode_failed = "ocsp decode failed"
public_error_message Error.ocsp_responder_validation_failed = "ocsp responder validation failed"
public_error_message Error.ocsp_response_failed = "ocsp response failed"
public_error_message (Error.audit_integrity text) = "audit integrity check failed"
public_error_message Error.storage_failure = "storage failure"
public_error_message _ = "internal server error"

unfoldable pub status_for_error : Error → ℕ
status_for_error Error.invalid_request = 400
status_for_error Error.unsupported_media_type = 415
status_for_error Error.unauthorized = 401
status_for_error Error.forbidden = 403
status_for_error Error.rate_limited = 429
status_for_error Error.acme_account_deactivated = 401
status_for_error Error.invalid_transition = 409
status_for_error Error.identity_not_found = 404
status_for_error Error.issuer_not_found = 404
status_for_error Error.ocsp_responder_not_found = 404
status_for_error Error.notification_endpoint_not_found = 404
status_for_error Error.certificate_profile_not_found = 404
status_for_error Error.enrollment_not_found = 404
status_for_error Error.certificate_not_found = 404
status_for_error Error.crl_publication_not_found = 404
status_for_error Error.outbox_message_not_found = 404
status_for_error Error.api_key_not_found = 404
status_for_error Error.acme_account_not_found = 404
status_for_error Error.acme_order_not_found = 404
status_for_error Error.acme_authorization_not_found = 404
status_for_error Error.acme_challenge_not_found = 404
status_for_error Error.csr_parse_failed = 422
status_for_error Error.certificate_issuance_failed = 502
status_for_error Error.crl_generation_failed = 502
status_for_error Error.ocsp_decode_failed = 400
status_for_error Error.ocsp_responder_validation_failed = 422
status_for_error Error.ocsp_response_failed = 502
status_for_error (Error.audit_integrity text) = 500
status_for_error Error.storage_failure = 500
status_for_error _ = 500

unfoldable pub acme_problem_type : Error → String
acme_problem_type Error.rate_limited = "urn:ietf:params:acme:error:rateLimited"
acme_problem_type Error.acme_account_deactivated = "urn:ietf:params:acme:error:unauthorized"
acme_problem_type Error.unauthorized = "urn:ietf:params:acme:error:unauthorized"
acme_problem_type Error.forbidden = "urn:ietf:params:acme:error:unauthorized"
acme_problem_type _ = "urn:ietf:params:acme:error:malformed"

-- The problem type that a status stands for.
abbrev problem_of_status : ℕ → String
problem_of_status status =
    if eqb status 429
    then "urn:ietf:params:acme:error:rateLimited"
    else if eqb status 401 || eqb status 403
    then "urn:ietf:params:acme:error:unauthorized"
    else "urn:ietf:params:acme:error:malformed"

-- The type of an ACME problem agrees with the status of the response, for every error of the domain: it
-- is rateLimited exactly for 429, unauthorized for 401 and 403, and malformed for every other status.
pub acme_problem_type-status_for_error :
    (x : Error) → acme_problem_type x ≡ problem_of_status (status_for_error x)
unfolding acme_problem_type status_for_error
acme_problem_type-status_for_error Error.invalid_request = refl
acme_problem_type-status_for_error Error.unsupported_media_type = refl
acme_problem_type-status_for_error Error.unauthorized = refl
acme_problem_type-status_for_error Error.forbidden = refl
acme_problem_type-status_for_error Error.rate_limited = refl
acme_problem_type-status_for_error Error.invalid_transition = refl
acme_problem_type-status_for_error Error.identity_not_found = refl
acme_problem_type-status_for_error Error.issuer_not_found = refl
acme_problem_type-status_for_error Error.ocsp_responder_not_found = refl
acme_problem_type-status_for_error Error.notification_endpoint_not_found = refl
acme_problem_type-status_for_error Error.certificate_profile_not_found = refl
acme_problem_type-status_for_error Error.enrollment_not_found = refl
acme_problem_type-status_for_error Error.certificate_not_found = refl
acme_problem_type-status_for_error Error.crl_publication_not_found = refl
acme_problem_type-status_for_error Error.outbox_message_not_found = refl
acme_problem_type-status_for_error Error.api_key_not_found = refl
acme_problem_type-status_for_error Error.acme_account_not_found = refl
acme_problem_type-status_for_error Error.acme_account_deactivated = refl
acme_problem_type-status_for_error Error.acme_order_not_found = refl
acme_problem_type-status_for_error Error.acme_authorization_not_found = refl
acme_problem_type-status_for_error Error.acme_challenge_not_found = refl
acme_problem_type-status_for_error Error.csr_parse_failed = refl
acme_problem_type-status_for_error Error.certificate_issuance_failed = refl
acme_problem_type-status_for_error Error.crl_generation_failed = refl
acme_problem_type-status_for_error Error.ocsp_decode_failed = refl
acme_problem_type-status_for_error Error.ocsp_responder_validation_failed = refl
acme_problem_type-status_for_error Error.ocsp_response_failed = refl
acme_problem_type-status_for_error (Error.audit_integrity text) = refl
acme_problem_type-status_for_error Error.storage_failure = refl
acme_problem_type-status_for_error Error.issuance_attempt_not_found = refl
acme_problem_type-status_for_error Error.crl_generation_claim_not_found = refl
acme_problem_type-status_for_error Error.webhook_delivery_not_found = refl
acme_problem_type-status_for_error (Error.other_error text) = refl
