-- ===== src/Store/Repository/Directory.antt =====
-- memory.go: identities, issuers, OCSP responders, notification endpoints and profiles, as methods of MemoryStore. Those of memoryTx have the same bodies.
use ano_pki_community.Common.{String, List, lookup, insert, values, Time, ok, Error, or_fail}
use ano_pki_community.Domain.{
  Identity, Issuer, OcspResponder, OcspResponderStatus, NotificationEndpoint,
  NotificationEndpointStatus, CertificateProfile,
}
use ano_pki_community.Store.Responders as Responders
use ano_pki_community.Store.Access as Access
use ano_pki_community.Store.State.{Repo, read, written}

unfoldable pub create_identity : Identity → Repo (Unit {0})
create_identity identity s =
    (ok tt, record s { identities = insert identity.id identity s.identities })

unfoldable pub get_identity : String → Repo Identity
get_identity id = read λ s. or_fail (lookup id s.identities) Error.identity_not_found

unfoldable pub list_identities : Repo (List Identity)
list_identities = read λ s. ok (values s.identities)

unfoldable pub create_issuer : Issuer → Repo (Unit {0})
create_issuer issuer s = (ok tt, record s { issuers = insert issuer.id issuer s.issuers })

unfoldable pub get_issuer : String → Repo Issuer
get_issuer id = read λ s. or_fail (lookup id s.issuers) Error.issuer_not_found

unfoldable pub list_issuers : Repo (List Issuer)
list_issuers = read λ s. ok (values s.issuers)

unfoldable pub create_ocsp_responder : OcspResponder → Repo (Unit {0})
create_ocsp_responder responder s =
    written s (λ m. record s { ocsp_responders = m })
      (Responders.create_ocsp_responder s.ocsp_responders responder)

unfoldable pub get_ocsp_responder : String → Repo OcspResponder
get_ocsp_responder id =
    read λ s. or_fail (lookup id s.ocsp_responders) Error.ocsp_responder_not_found

unfoldable pub list_ocsp_responders_by_issuer : String → Repo (List OcspResponder)
list_ocsp_responders_by_issuer issuer_id =
    read λ s. ok (Responders.list_ocsp_responders_by_issuer s.ocsp_responders issuer_id)

unfoldable pub get_active_ocsp_responder_by_issuer : String → Repo OcspResponder
get_active_ocsp_responder_by_issuer issuer_id =
    read λ s. Responders.active_ocsp_responder_by_issuer s.ocsp_responders issuer_id

unfoldable pub update_ocsp_responder_if_status :
    OcspResponder → OcspResponderStatus → Repo (Unit {0})
update_ocsp_responder_if_status responder current_status s =
    written s (λ m. record s { ocsp_responders = m })
      (Responders.update_ocsp_responder_if_status s.ocsp_responders responder current_status)

unfoldable pub create_notification_endpoint : NotificationEndpoint → Repo (Unit {0})
create_notification_endpoint endpoint s =
    (ok tt, record s { notifications = insert endpoint.id endpoint s.notifications })

unfoldable pub get_notification_endpoint : String → Repo NotificationEndpoint
get_notification_endpoint id =
    read λ s. or_fail (lookup id s.notifications) Error.notification_endpoint_not_found

unfoldable pub list_notification_endpoints : Repo (List NotificationEndpoint)
list_notification_endpoints = read λ s. ok (Access.list_notification_endpoints s.notifications)

unfoldable pub update_notification_endpoint_if_status :
    NotificationEndpoint → NotificationEndpointStatus → Repo (Unit {0})
update_notification_endpoint_if_status endpoint current_status s =
    written s (λ m. record s { notifications = m })
      (Access.update_notification_endpoint_if_status s.notifications endpoint current_status)

unfoldable pub create_certificate_profile : CertificateProfile → Repo (Unit {0})
create_certificate_profile profile s =
    (ok tt, record s { profiles = insert profile.id profile s.profiles })

unfoldable pub get_certificate_profile : String → Repo CertificateProfile
get_certificate_profile id =
    read λ s. or_fail (lookup id s.profiles) Error.certificate_profile_not_found

unfoldable pub list_certificate_profiles : Repo (List CertificateProfile)
list_certificate_profiles = read λ s. ok (values s.profiles)

unfoldable pub update_certificate_profile_issuer_if_current :
    CertificateProfile → String → Time → Repo (Unit {0})
update_certificate_profile_issuer_if_current profile current_issuer_id current_updated_at s =
    written s (λ m. record s { profiles = m })
      (Access.update_certificate_profile_issuer_if_current s.profiles profile current_issuer_id
        current_updated_at)
