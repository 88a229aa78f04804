-- ===== src/Strict/Tests.antt =====
-- A spec that can be published, and one that a field type keeps from it.
use criteria_go_adapter_sdk.Base.{
  ◌≡◌, ◌↔◌, refl, Bool, true, false, String, [], ◌∷◌, some, Result, ok, err, ◌>>=◌,
}
use criteria_go_adapter_sdk.Base.Regex.{match_string, matches, derivative, nullable}
use criteria_go_adapter_sdk.Wire.{Bytes, InfoResponse}
use criteria_go_adapter_sdk.Spec.{Spec, field}
use criteria_go_adapter_sdk.Spec.Validate.{validate, check_fields, check_secrets, check_examples}
use criteria_go_adapter_sdk.Spec.Info.{
  derive_info, resolve_examples, info_of, adapter_schema_proto, secret_map,
}
use criteria_go_adapter_sdk.Spec.Tests.{greeter}
use criteria_go_adapter_sdk.Manifest.{
  ManifestDoc, build_manifest_doc, render_manifest, platforms_from_strings, sdk_protocol_version,
  schema_from_proto, secrets_from_map,
}
use criteria_go_adapter_sdk.Strict.{Manifest, parse, StrictError, bad_type, bad_arch}
use criteria_go_adapter_sdk.Strict
use criteria_go_adapter_sdk.Strict.Accepted.{IsPublishable, validate-IsPublishable}
use criteria_go_adapter_sdk.Strict.Mirror.{mirror, IsPublishableSpec}
use criteria_go_adapter_sdk.Strict.Published.{render_manifest-IsPublishable}

abbrev read_file : String → Result String String
read_file path = ok "step {}"

abbrev published : Spec String
published = record greeter {
  source_url = "https://example.com/greeter";
  platforms = "linux/amd64" ∷ [];
  input_schema = field "name" "string" true "whom" ∷ [];
}

abbrev info : Spec String → InfoResponse
info spec =
    info_of read_file spec (record { name = "hello"; description = ""; hcl = "step {}" } ∷ [])

abbrev encode : ManifestDoc → Result String Bytes
encode doc = ok (123 ∷ 125 ∷ [])

abbrev decode : Bytes → Result String (Manifest × Bool)
decode text = ok (mirror (build_manifest_doc (info published)), false)

derives : derive_info read_file published ≡ ok (info published)
unfolding derive_info validate check_fields check_secrets check_examples resolve_examples
derives = refl

renders : render_manifest encode (some (info published)) ≡ ok (123 ∷ 125 ∷ [])
unfolding render_manifest
renders = refl

render_manifest-IsPublishable_example :
    ((parse decode (123 ∷ 125 ∷ []) >>= Strict.validate) ≡ ok tt) ↔ IsPublishableSpec published
render_manifest-IsPublishable_example =
    render_manifest-IsPublishable read_file published encode decode (info published)
      (123 ∷ 125 ∷ []) derives renders (λ e. refl)

validate-IsPublishable_example :
    (Strict.validate (mirror (build_manifest_doc (info published))) ≡ ok tt)
    ↔ IsPublishable (mirror (build_manifest_doc (info published)))
validate-IsPublishable_example =
    validate-IsPublishable (mirror (build_manifest_doc (info published)))

accepts : Strict.validate (mirror (build_manifest_doc (info published))) ≡ ok tt
unfolding Strict.validate match_string matches derivative nullable build_manifest_doc
    platforms_from_strings sdk_protocol_version schema_from_proto secrets_from_map
    adapter_schema_proto secret_map
accepts = refl

-- A field of the SDK's type bool, and a platform without an architecture.
rejects_bool :
    Strict.validate (
      mirror (
        build_manifest_doc
          (info (record published { input_schema = field "loud" "bool" false "" ∷ [] }))))
    ≡ err (bad_type "input_schema" "loud" "bool")
unfolding Strict.validate match_string matches derivative nullable build_manifest_doc
    platforms_from_strings sdk_protocol_version schema_from_proto secrets_from_map
    adapter_schema_proto secret_map
rejects_bool = refl

rejects_os_only :
    Strict.validate
      (mirror (build_manifest_doc (info (record published { platforms = "linux" ∷ [] }))))
    ≡ err (bad_arch "")
unfolding Strict.validate match_string matches derivative nullable build_manifest_doc
    platforms_from_strings sdk_protocol_version schema_from_proto secrets_from_map
    adapter_schema_proto secret_map
rejects_os_only = refl
