-- ===== src/Entrypoints/Tiers.antt =====
-- ServeSpec against Serve: the two tiers' entrypoints.
use criteria_go_adapter_sdk.Base.{
  ◌≢◌, subst, Option-cases, String, true, ◌≡◌, refl, ap, sym, ◌∙◌, ◌⊎◌, inl, inr, List, [], ◌∷◌,
  Option, some, Result, ok, err, ◌>>=◌, wrap_err, Result-cases, Bool-cases, if◌then◌else◌, arith,
}
use criteria_go_adapter_sdk.Wire.{Bytes, InfoResponse}
use criteria_go_adapter_sdk.Spec.{Spec}
use criteria_go_adapter_sdk.Spec.Execute.{Framing}
use criteria_go_adapter_sdk.Spec.Validate.{SpecError, validate, spec_service}
use criteria_go_adapter_sdk.Spec.Info.{derive_info}
use criteria_go_adapter_sdk.Manifest.{
  encode_failed, render_info, spec_failed, ManifestDoc, ManifestError, build_manifest_doc,
  render_manifest, emit_manifest_from_service, emit_manifest_from_spec, emit_manifest_requested,
  run_emit_manifest_if_requested, write_manifest, not_requested, exits_one, handled,
}
use criteria_go_adapter_sdk.Entrypoints.{
  some_info, Emission, Process, printed, exits, plugin, after_emission, handshake_config,
  adapter_name, service_of, serve, serve_spec,
}

wrap_err-ok : (r : Result String Bytes) (b : Bytes) → wrap_err encode_failed r ≡ ok b → r ≡ ok b
wrap_err-ok (ok x) b h = ground arith
wrap_err-ok (err e) b h = ground arith

module _ {Any Value Struct : Type 0} (args : List String) (stdout : Bytes → Option String)
    (encode : ManifestDoc → Result String Bytes) (read : String → Result String String)
    (text : SpecError → String) (new_value : Any → Result String Value)
    (new_struct : List (String × Any) → Result String Struct) (framing : Framing Any)
    (spec : Spec Any) where
  -- The spec's process, and that of its service under Serve.
  abbrev pub spec_process : Process Value Struct
  spec_process =
      serve_spec args stdout encode read (service_of read text new_value new_struct framing)
        (some spec)

  abbrev pub service_process : Process Value Struct
  service_process =
      serve args stdout encode (some (service_of read text new_value new_struct framing spec))

  after_twice :
      (p : Process Value Struct) (e : Emission)
      → after_emission (after_emission p e) e ≡ after_emission p e
  after_twice p not_requested = refl
  after_twice p exits_one = refl
  after_twice p (handled b) = refl

  -- The two ways to render a spec's manifest differ in the text of an error alone.
  rendered_same :
      (r : Result SpecError InfoResponse)
      → write_manifest stdout
          (wrap_err spec_failed r >>= λ info. render_manifest encode (some info))
        ≡ write_manifest stdout
            (render_info encode (some_info read text new_value new_struct framing r))
  rendered_same (ok info) = refl
  rendered_same (err e) = refl

  emission_same :
      run_emit_manifest_if_requested args stdout (emit_manifest_from_spec encode read spec)
      ≡ run_emit_manifest_if_requested args stdout (
          emit_manifest_from_service encode
            (some (service_of read text new_value new_struct framing spec).info))
  unfolding run_emit_manifest_if_requested emit_manifest_from_service emit_manifest_from_spec
  emission_same =
      ap (λ e. if emit_manifest_requested args then e else not_requested)
        (rendered_same (derive_info read spec))

  serve_twice : validate spec ≡ ok tt → spec_process ≡ service_process
  unfolding serve_spec spec_service serve
  serve_twice h = rw h (
      rw emission_same (
        after_twice
          (plugin handshake_config
            ((adapter_name, some (service_of read text new_value new_struct framing spec)) ∷ []))
          (run_emit_manifest_if_requested args stdout (
            emit_manifest_from_service encode
              (some (service_of read text new_value new_struct framing spec).info)))))

  -- ServeSpec either finds the spec invalid and exits with status 1, or does what Serve does on the
  -- spec's service: it prints the same bytes, exits with status 1, or serves the same plugin.
  pub serve_spec-serve :
      ((validate spec ≡ ok tt) × (spec_process ≡ service_process))
      ⊎ ((e : SpecError) × (validate spec ≡ err e) × (spec_process ≡ exits))
  unfolding serve_spec spec_service
  serve_spec-serve = elim (Result-cases (validate spec)) [
    | inl (tt, h) ↦ inl (h, serve_twice h)
    | inr (e, h) ↦ inr (e, h, rw h refl)
  ]

  after_emission-printed :
      (e : Emission) (b : Bytes)
      → after_emission
          (plugin handshake_config
            ((adapter_name, some (service_of read text new_value new_struct framing spec)) ∷ []))
          e
        ≡ printed b
      → e ≡ handled b
  after_emission-printed not_requested b h = ground arith
  after_emission-printed exits_one b h = ground arith
  after_emission-printed (handled x) b h = ground arith

  write_manifest-handled :
      (r : Result ManifestError Bytes) (b : Bytes) → write_manifest stdout r ≡ handled b → r ≡ ok b
  write_manifest-handled (err e) b h = ground arith
  write_manifest-handled (ok x) b h = elim (Option-cases (stdout x)) [
    | inl e ↦ ground arith
    | inr (y, e) ↦ ground arith
  ]

  exits_unprinted : (b : Bytes) → ◌≢◌ {A = Process Value Struct} exits (printed b)
  exits_unprinted b h = ground arith

  rendered_from :
      (r : Result SpecError InfoResponse) (b : Bytes)
      → render_info encode (some_info read text new_value new_struct framing r) ≡ ok b
      → (info : InfoResponse) × (r ≡ ok info) × (encode (build_manifest_doc info) ≡ ok b)
  unfolding render_manifest
  rendered_from (ok info) b h = (info, refl, wrap_err-ok (encode (build_manifest_doc info)) b h)
  rendered_from (err e) b h = ground arith

  service_printed :
      (b : Bytes)
      → service_process ≡ printed b
      → (emit_manifest_requested args ≡ true)
        × ((info : InfoResponse) × (derive_info read spec ≡ ok info)
            × (encode (build_manifest_doc info) ≡ ok b))
  unfolding serve run_emit_manifest_if_requested emit_manifest_from_service
  service_printed b h = elim (Bool-cases (emit_manifest_requested args)) [
    | inl e ↦
        let rendered =
          render_info encode
            (some_info read text new_value new_struct framing (derive_info read spec)) in
        let k =
          after_emission-printed
            (if emit_manifest_requested args then write_manifest stdout rendered else not_requested)
            b h in
        (
          e,
          rendered_from (derive_info read spec) b (
              write_manifest-handled rendered b (
                subst
                  (λ q. (if q then write_manifest stdout rendered else not_requested) ≡ handled b) e
                  k)),
        )
    | inr e ↦ ground arith
  ]

  -- What ServeSpec prints was asked for, and is the encoding of the document built from the answer of Info.
  pub serve_spec-printed :
      (b : Bytes)
      → spec_process ≡ printed b
      → (emit_manifest_requested args ≡ true)
        × ((info : InfoResponse) × (derive_info read spec ≡ ok info)
            × (encode (build_manifest_doc info) ≡ ok b))
  serve_spec-printed b h = elim serve_spec-serve [
    | inl (v, e) ↦ service_printed b (sym e ∙ h)
    | inr (x, v, e) ↦ absurd (exits_unprinted b (sym e ∙ h))
  ]
