-- ===== src/Greeter/Tests.antt =====
-- The greeter's process with --emit-manifest.
use criteria_go_adapter_sdk.Base.{
  String, Bool, false, ◌≡◌, refl, List, [], ◌∷◌, Option, none, Result, ok, ◌>>=◌,
}
use criteria_go_adapter_sdk.Wire.{Bytes}
use criteria_go_adapter_sdk.Spec.Execute.{Framing}
use criteria_go_adapter_sdk.Spec.Validate.{
  SpecError, validate, spec_service, check_fields, check_secrets, check_examples,
}
use criteria_go_adapter_sdk.Spec.Info.{derive_info, resolve_examples}
use criteria_go_adapter_sdk.Manifest.{
  ManifestDoc, build_manifest_doc, emit_manifest_requested, emit_manifest_from_spec,
  render_manifest, run_emit_manifest_if_requested,
}
use criteria_go_adapter_sdk.Strict.{Manifest, parse}
use criteria_go_adapter_sdk.Strict
use criteria_go_adapter_sdk.Strict.Mirror.{mirror}
use criteria_go_adapter_sdk.Entrypoints.{printed, serve_spec}
use criteria_go_adapter_sdk.Entrypoints.Tiers.{spec_process}
use criteria_go_adapter_sdk.Greeter.{greeter_greeting, greeter_spec}
use criteria_go_adapter_sdk.Greeter.Served.{greeter_info, greeter_spec-published}

abbrev any_text : String → String
any_text s = s

abbrev read_file : String → Result String String
read_file path = ok ""

abbrev stdout : Bytes → Option String
stdout text = none

abbrev encode : ManifestDoc → Result String Bytes
encode doc = ok (123 ∷ 125 ∷ [])

abbrev decode : Bytes → Result String (Manifest × Bool)
decode text = ok (mirror (build_manifest_doc (greeter_info any_text)), false)

abbrev error_text : SpecError → String
error_text e = "invalid spec"

abbrev new_value : String → Result String String
new_value v = ok v

abbrev new_struct : List (String × String) → Result String String
new_struct m = ok "{}"

abbrev framing : Framing String
framing = record {
  marshal_outputs = λ outputs. ok [];
  needs_chunking = λ outputs size. false;
  chunk_execute_result_outputs = λ base outputs size. base ∷ [];
  default_max_chunk_bytes = 1048576;
}

abbrev flag : List String
flag = "--emit-manifest" ∷ []

prints :
    spec_process flag stdout encode read_file error_text new_value new_struct framing
      (greeter_spec any_text)
    ≡ printed (123 ∷ 125 ∷ [])
unfolding serve_spec spec_service validate check_fields check_secrets check_examples derive_info
    resolve_examples emit_manifest_from_spec render_manifest run_emit_manifest_if_requested
    emit_manifest_requested
prints = refl

greeter_spec-published_example : (parse decode (123 ∷ 125 ∷ []) >>= Strict.validate) ≡ ok tt
greeter_spec-published_example =
    greeter_spec-published any_text flag stdout encode decode read_file error_text new_value
      new_struct framing (123 ∷ 125 ∷ []) (λ e. refl) prints

greets : (greeter_greeting "" ≡ "hello, world") × (greeter_greeting "Ada" ≡ "hello, Ada")
greets = (refl, refl)
