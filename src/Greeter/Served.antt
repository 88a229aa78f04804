-- ===== src/Greeter/Served.antt =====
-- The greeter from its declaration to the host: its manifest passes the host's rules, and what Execute sends
-- joins to the greeting.
use criteria_go_adapter_sdk.Base.{
  Bool, false, sym, subst, ◌∙◌, ok_inj, ℕ, String, ◌≡◌, refl, List, [], ◌∷◌, Option, none, Result,
  ok, ◌>>=◌, lookup, arith, eq_iff,
}
use criteria_go_adapter_sdk.Base.Regex.{match_string, matches, derivative, nullable}
use criteria_go_adapter_sdk.Wire.{Bytes, InfoResponse, ExecuteRequest, ExecuteResult}
use criteria_go_adapter_sdk.Spec.Validate.{
  SpecError, validate, check_fields, check_secrets, check_examples,
}
use criteria_go_adapter_sdk.Spec.Info.{
  derive_info, resolve_examples, adapter_schema_proto, secret_map, info_of,
}
use criteria_go_adapter_sdk.Spec.Execute.{Framing, execute}
use criteria_go_adapter_sdk.Conformance.{join_execute_result_fragments, whole}
use criteria_go_adapter_sdk.Conformance.Delivered.{IsLawful, execute-join}
use criteria_go_adapter_sdk.Manifest.{
  ManifestDoc, build_manifest_doc, platforms_from_strings, sdk_protocol_version, schema_from_proto,
  secrets_from_map,
}
use criteria_go_adapter_sdk.Strict.{Manifest, parse}
use criteria_go_adapter_sdk.Strict
use criteria_go_adapter_sdk.Strict.Mirror.{mirror}
use criteria_go_adapter_sdk.Entrypoints.{printed}
use criteria_go_adapter_sdk.Entrypoints.Tiers.{spec_process, serve_spec-printed}
use criteria_go_adapter_sdk.Greeter.{greeter_greeting, or_empty, execute_greet, greeter_spec}

module _ {Any : Type 0} (text : String → Any) where
  abbrev pub greeter_info : InfoResponse
  greeter_info = info_of (λ path. ok "") (greeter_spec text) []

  greeter_spec-Info :
      (read : String → Result String String)
      → derive_info read (greeter_spec text) ≡ ok greeter_info
  unfolding derive_info validate check_fields check_secrets check_examples resolve_examples
  greeter_spec-Info read = refl

  greeter_doc-accepted : Strict.validate (mirror (build_manifest_doc greeter_info)) ≡ ok tt
  unfolding Strict.validate match_string matches derivative nullable build_manifest_doc
      platforms_from_strings sdk_protocol_version schema_from_proto secrets_from_map
      adapter_schema_proto secret_map
  greeter_doc-accepted = refl

  parsed :
      (decode : Bytes → Result String (Manifest × Bool)) (bytes : Bytes) (m : Manifest)
      → decode bytes ≡ ok (m, false)
      → (parse decode bytes >>= Strict.validate) ≡ Strict.validate m
  unfolding parse
  parsed decode bytes m e = rw e refl

  -- Whatever bytes the greeter's main prints for its arguments, they parse and pass the strict rules, provided
  -- that the JSON decoder reads back what the encoder wrote of its document.
  pub greeter_spec-published :
      {Value Struct : Type 0} (args : List String) (stdout : Bytes → Option String)
      (encode : ManifestDoc → Result String Bytes)
      (decode : Bytes → Result String (Manifest × Bool)) (read : String → Result String String)
      (error_text : SpecError → String) (new_value : Any → Result String Value)
      (new_struct : List (String × Any) → Result String Struct) (framing : Framing Any)
      (bytes : Bytes)
      → (encode (build_manifest_doc greeter_info) ≡ ok bytes
          → decode bytes ≡ ok (mirror (build_manifest_doc greeter_info), false))
      → spec_process args stdout encode read error_text new_value new_struct framing
          (greeter_spec text)
        ≡ printed bytes
      → (parse decode bytes >>= Strict.validate) ≡ ok tt
  greeter_spec-published args stdout encode decode read error_text new_value new_struct framing
        bytes law h =
      let (_, (info, derived, written)) =
        serve_spec-printed args stdout encode read error_text new_value new_struct framing
          (greeter_spec text) bytes h in
      let same = ok_inj (sym derived ∙ greeter_spec-Info read) in
      let doc = build_manifest_doc greeter_info in
      parsed decode bytes (mirror doc)
        (law (subst (λ i. encode (build_manifest_doc i) ≡ ok bytes) same written))
      ∙ greeter_doc-accepted

  -- The greeter answers a step on a healthy stream with its greeting, and no error.
  greeter_spec-greets :
      (framing : Framing Any) (join_outputs : List ExecuteResult → Result String Bytes)
      → IsLawful framing join_outputs
      → (req : ExecuteRequest) (send : ℕ → Option String) (outputs : Bytes)
      → framing.marshal_outputs
          (("greeting", text (greeter_greeting (or_empty (lookup "name" req.input)))) ∷ [])
        ≡ ok outputs
      → ((j : ℕ) → send j ≡ none)
      → ((execute framing (greeter_spec text) req send).answer ≡ none)
        × (join_execute_result_fragments join_outputs
              (execute framing (greeter_spec text) req send).sent
            ≡ ok (whole "success" outputs))
  greeter_spec-greets framing join_outputs lawful req send outputs m healthy =
      execute-join framing join_outputs lawful (greeter_spec text) req send (execute_greet text) _
        outputs refl refl m (λ p. ground (arith, eq_iff "success" "")) healthy
