-- ===== src/Strict/Published.antt =====
-- Which specs have a manifest that the strict rules accept.
use criteria_go_adapter_sdk.Base.{
  Result-cases, String, ◌≡◌, refl, sym, subst, ◌∙◌, ◌↔◌, inl, inr, Bool, false, List, some, Result,
  ok, ◌>>=◌, arith,
}
use criteria_go_adapter_sdk.Wire.{Bytes, WireExample, InfoResponse}
use criteria_go_adapter_sdk.Spec.{Spec}
use criteria_go_adapter_sdk.Spec.Valid.{IsValid}
use criteria_go_adapter_sdk.Spec.Info.{derive_info, info_of}
use criteria_go_adapter_sdk.Spec.Schemas.{derive_info-Reports, info_of-derive_info}
use criteria_go_adapter_sdk.Manifest.{
  ManifestDoc, build_manifest_doc, sdk_protocol_version, render_manifest,
}
use criteria_go_adapter_sdk.Strict.{Manifest, validate, parse}
use criteria_go_adapter_sdk.Strict.Accepted.{IsPublishable, validate-IsPublishable}
use criteria_go_adapter_sdk.Strict.Mirror.{
  mirror, IsPublishableSpec, types_iff, platforms_iff, some_platform_iff, secret_names_iff,
  image-HasRef,
}

module _ {Any : Type 0} (read : String → Result String String) (spec : Spec Any) where
  mirror_iff :
      (ws : List WireExample)
      → IsValid spec
      → IsPublishable (mirror (build_manifest_doc (info_of read spec ws))) ↔ IsPublishableSpec spec
  unfolding build_manifest_doc sdk_protocol_version
  mirror_iff ws v = (
    (λ p. record {
      name = p.name;
      version = p.version;
      source_url = p.source_url;
      some_platform = (some_platform_iff spec.platforms).0 p.some_platform;
      platforms = (platforms_iff spec.platforms).0 p.platforms;
      config = (types_iff spec.config_schema v.config.distinct).0 p.config;
      input = (types_iff spec.input_schema v.input.distinct).0 p.input;
      output = (types_iff spec.output_schema v.output.distinct).0 p.output;
      secrets = (secret_names_iff spec.secrets v.secrets).0 p.secrets;
      environments = p.environments;
    }),
    (λ s. record {
      schema_version = refl;
      name = s.name;
      version = s.version;
      source_url = s.source_url;
      protocol_version = refl;
      some_platform = (some_platform_iff spec.platforms).1 s.some_platform;
      platforms = (platforms_iff spec.platforms).1 s.platforms;
      config = (types_iff spec.config_schema v.config.distinct).1 s.config;
      input = (types_iff spec.input_schema v.input.distinct).1 s.input;
      output = (types_iff spec.output_schema v.output.distinct).1 s.output;
      secrets = (secret_names_iff spec.secrets v.secrets).1 s.secrets;
      environments = s.environments;
      image = image-HasRef spec.container_image;
    }),
  )

  encoded :
      (encode : ManifestDoc → Result String Bytes) (info : InfoResponse) (bytes : Bytes)
      → render_manifest encode (some info) ≡ ok bytes
      → encode (build_manifest_doc info) ≡ ok bytes
  unfolding render_manifest
  encoded encode info bytes h = elim (Result-cases (encode (build_manifest_doc info))) [
    | inl (b, e) ↦ ground arith
    | inr (b, e) ↦ ground arith
  ]

  parsed :
      (decode : Bytes → Result String (Manifest × Bool)) (bytes : Bytes) (m : Manifest)
      → decode bytes ≡ ok (m, false)
      → (parse decode bytes >>= validate) ≡ validate m
  unfolding parse
  parsed decode bytes m e = rw e refl

  -- Where the JSON decoder reads back what the encoder wrote of this document, the manifest that a spec's Info answer
  -- renders to parses and passes the strict rules exactly when the spec's name, version, source URL,
  -- platforms, environments and each declared field type are in the rules' patterns, it has a
  -- platform, and each secret has a name.
  pub render_manifest-IsPublishable :
      (encode : ManifestDoc → Result String Bytes)
      (decode : Bytes → Result String (Manifest × Bool)) (info : InfoResponse) (bytes : Bytes)
      → derive_info read spec ≡ ok info
      → render_manifest encode (some info) ≡ ok bytes
      → (encode (build_manifest_doc info) ≡ ok bytes
          → decode bytes ≡ ok (mirror (build_manifest_doc info), false))
      → ((parse decode bytes >>= validate) ≡ ok tt) ↔ IsPublishableSpec spec
  render_manifest-IsPublishable encode decode info bytes h r law =
      let doc = build_manifest_doc info in
      let same = parsed decode bytes (mirror doc) (law (encoded encode info bytes r)) in
      let (v, _) = derive_info-Reports read spec info h in
      let (ws, e) = info_of-derive_info read spec info h in
      let strict = validate-IsPublishable (mirror doc) in
      let both = mirror_iff ws v in
      (
        (λ p. both.0 (
            subst (λ i. IsPublishable (mirror (build_manifest_doc i))) (sym e)
              (strict.0 (sym same ∙ p)))),
        (λ p.
            same
            ∙ strict.1 (subst (λ i. IsPublishable (mirror (build_manifest_doc i))) e (both.1 p))),
      )
