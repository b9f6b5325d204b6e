-- ===== src/Refs/Examples.antt =====
-- Concrete references (engine/refs_test.go has such cases).
use oma_seal.Prelude.{◌≡◌, refl, true, false, [], ◌∷◌, bytes_beq}
use oma_seal.Errors.{ok, err, plain}
use oma_seal.Bytes.{Bytes, codes}
use oma_seal.Refs.{
  valid_component, parse_ref, ref_aware_credentials, parse_credential_args, valid_bytes,
}
use oma_seal.Refs.Component.{IsComponent, valid_component_iff}
use oma_seal.Refs.Uri.{uri, parse_ref-uri, ref_aware_credentials-uri}

abbrev service : Bytes
service = codes "browseros"

abbrev account : Bytes
account = codes "work/api.Key"

service_IsComponent : IsComponent false service
unfolding valid_component bytes_beq valid_bytes
service_IsComponent = (valid_component_iff false service).0 refl

account_IsComponent : IsComponent true account
unfolding valid_component bytes_beq valid_bytes
account_IsComponent = (valid_component_iff true account).0 refl

space_refused : valid_component (codes "my key") true ≡ err plain
unfolding valid_component bytes_beq valid_bytes
space_refused = refl

parse_ref-uri_example :
    parse_ref (codes "omaseal://browseros/work/api.Key") true ≡ ok (service, account)
parse_ref-uri_example = parse_ref-uri service account true service_IsComponent account_IsComponent

strict_ok : ref_aware_credentials service account true ≡ ok (service, account)
strict_ok =
    (ref_aware_credentials-uri service account true service_IsComponent account_IsComponent).1

ref_aware_credentials-uri_example :
    (ref_aware_credentials (uri service account) [] true ≡ ok (service, account))
    × (ref_aware_credentials service account true ≡ ok (service, account))
    × (parse_credential_args (uri service account ∷ []) true ≡ ok (service, account))
    × (parse_credential_args (service ∷ account ∷ []) true ≡ ok (service, account))
ref_aware_credentials-uri_example =
    ref_aware_credentials-uri service account true service_IsComponent account_IsComponent
