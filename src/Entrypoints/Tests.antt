-- ===== src/Entrypoints/Tests.antt =====
-- The greeter's process, with and without --emit-manifest, and its identity.
use criteria_go_adapter_sdk.Base.{
  false, String, ◌≡◌, ◌⊎◌, refl, true, List, [], ◌∷◌, Option, none, some, Result, ok, err,
}
use criteria_go_adapter_sdk.Wire.{Bytes, InfoResponse}
use criteria_go_adapter_sdk.Spec.Execute.{Framing}
use criteria_go_adapter_sdk.Spec.Validate.{
  SpecError, validate, spec_service, check_fields, check_secrets, check_examples,
}
use criteria_go_adapter_sdk.Spec.Valid.{validate_iff}
use criteria_go_adapter_sdk.Spec.Info.{derive_info, resolve_examples}
use criteria_go_adapter_sdk.Spec.Tests.{greeter}
use criteria_go_adapter_sdk.Manifest.{
  ManifestDoc, build_manifest_doc, emit_manifest_requested, emit_manifest_from_spec,
  render_manifest, run_emit_manifest_if_requested,
}
use criteria_go_adapter_sdk.Remote.{ServeRemoteOptions, serve_remote}
use criteria_go_adapter_sdk.Entrypoints.{printed, exits, no_options, serve_spec, serve_spec_remote}
use criteria_go_adapter_sdk.Entrypoints.Tiers.{
  serve_spec-serve, serve_spec-printed, spec_process, service_process,
}
use criteria_go_adapter_sdk.Entrypoints.Identity.{Identified, serve_spec_remote-Identified}

abbrev read_file : String → Result String String
read_file path = ok "step {}"

abbrev stdout : Bytes → Option String
stdout text = none

abbrev encode : ManifestDoc → Result String Bytes
encode doc = ok (123 ∷ 125 ∷ [])

abbrev error_text : SpecError → String
error_text e = "invalid spec"

abbrev new_value : String → Result String String
new_value v = ok v

abbrev new_struct : List (String × String) → Result String String
new_struct m = ok "{}"

abbrev framing : Framing String
framing = record {
  marshal_outputs = λ outputs. ok [];
  needs_chunking = λ outputs size. false;
  chunk_execute_result_outputs = λ base outputs size. base ∷ [];
  default_max_chunk_bytes = 1048576;
}

abbrev flag : List String
flag = "--emit-manifest" ∷ []

prints :
    spec_process flag stdout encode read_file error_text new_value new_struct framing greeter
    ≡ printed (123 ∷ 125 ∷ [])
unfolding serve_spec spec_service validate check_fields check_secrets check_examples derive_info
    resolve_examples emit_manifest_from_spec render_manifest run_emit_manifest_if_requested
    emit_manifest_requested
prints = refl

serve_spec-serve_example :
    ((validate greeter ≡ ok tt)
      × (spec_process [] stdout encode read_file error_text new_value new_struct framing greeter
          ≡ service_process [] stdout encode read_file error_text new_value new_struct framing
              greeter))
    ⊎ ((e : SpecError) × (validate greeter ≡ err e)
        × (spec_process [] stdout encode read_file error_text new_value new_struct framing greeter
            ≡ exits))
serve_spec-serve_example =
    serve_spec-serve [] stdout encode read_file error_text new_value new_struct framing greeter

serve_spec-printed_example :
    (emit_manifest_requested flag ≡ true)
    × ((info : InfoResponse) × (derive_info read_file greeter ≡ ok info)
        × (encode (build_manifest_doc info) ≡ ok (123 ∷ 125 ∷ [])))
serve_spec-printed_example =
    serve_spec-printed flag stdout encode read_file error_text new_value new_struct framing greeter
      (123 ∷ 125 ∷ []) prints

valid : validate greeter ≡ ok tt
unfolding validate check_fields check_secrets check_examples
valid = refl

serve_spec_remote-Identified_example :
    (o : ServeRemoteOptions) × (serve_spec_remote (λ h. ok []) (some greeter) none []
      ≡ ok (serve_remote (λ h. ok []) (some o) [], o))
    × Identified greeter no_options o
serve_spec_remote-Identified_example =
    serve_spec_remote-Identified greeter (λ h. ok []) none [] ((validate_iff greeter).0 valid)
