-- ===== src/Manifest/Tests.antt =====
-- The greeter's manifest, platforms, and protocol versions.
use criteria_go_adapter_sdk.Base.{◌≡◌, refl, String, [], ◌∷◌, ok, Result}
use criteria_go_adapter_sdk.Base.Int.{pos, negsuc}
use criteria_go_adapter_sdk.Spec.Validate.{validate, check_fields, check_secrets, check_examples}
use criteria_go_adapter_sdk.Spec.Info.{derive_info, resolve_examples, info_of}
use criteria_go_adapter_sdk.Spec.Tests.{greeter}
use criteria_go_adapter_sdk.Manifest.{
  ManifestDoc, build_manifest_doc, manifest_from_spec, platforms_from_strings, sdk_protocol_version,
}
use criteria_go_adapter_sdk.Manifest.Platforms.{ReadsAll, platforms_from_strings-ReadsAll}
use criteria_go_adapter_sdk.Manifest.Shown.{Shows, manifest_from_spec-Shows}

abbrev read_file : String → Result String String
read_file path = ok "step {}"

abbrev greeter_doc : ManifestDoc
greeter_doc =
    build_manifest_doc (
      info_of read_file greeter (record { name = "hello"; description = ""; hcl = "step {}" } ∷ []))

rendered : manifest_from_spec read_file greeter ≡ ok greeter_doc
unfolding manifest_from_spec derive_info validate check_fields check_secrets check_examples
    resolve_examples
rendered = refl

manifest_from_spec-Shows_example : Shows greeter greeter_doc
manifest_from_spec-Shows_example = manifest_from_spec-Shows read_file greeter greeter_doc rendered

platforms :
    platforms_from_strings ("linux/arm64" ∷ "plan9" ∷ "a/b/c" ∷ [])
    ≡ record { os = "linux"; arch = "arm64" }
      ∷ record { os = "plan9"; arch = "" }
      ∷ record { os = "a"; arch = "b/c" }
      ∷ []
unfolding platforms_from_strings
platforms = refl

versions :
    (sdk_protocol_version " 3 " ≡ pos 3)
    × ((sdk_protocol_version "-4" ≡ negsuc 3) × (sdk_protocol_version "v2" ≡ pos 2))
unfolding sdk_protocol_version
versions = (refl, (refl, refl))

platforms_from_strings-ReadsAll_example :
    ReadsAll ("linux/arm64" ∷ "plan9" ∷ []) (platforms_from_strings ("linux/arm64" ∷ "plan9" ∷ []))
platforms_from_strings-ReadsAll_example =
    platforms_from_strings-ReadsAll ("linux/arm64" ∷ "plan9" ∷ [])
