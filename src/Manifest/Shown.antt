-- ===== src/Manifest/Shown.antt =====
-- What of a spec reaches the manifest.
use criteria_go_adapter_sdk.Spec.Valid.{field_names, IsValid}
use criteria_go_adapter_sdk.Base.{
  Distinct, ok_inj, String, ◌≡◌, refl, sym, ap, ◌∙◌, List, [], ◌∷◌, Option, none, some, Result, ok,
  lookup, if◌then◌else◌, ◌==◌, arith, bind_ok, subst,
}
use criteria_go_adapter_sdk.Base.Int.{pos}
use criteria_go_adapter_sdk.Base.Copies.{put_all-DistinctKeys, DistinctKeys, map_value, lookup-copy}
use criteria_go_adapter_sdk.Wire.{fields_of, WireExample}
use criteria_go_adapter_sdk.Spec.{SchemaField, Schema, Spec}
use criteria_go_adapter_sdk.Spec.Info.{config_field, adapter_schema_proto, derive_info, info_of}
use criteria_go_adapter_sdk.Spec.Schemas.{
  lookup-adapter_schema_proto, Both, by_name, fields_of-adapter_schema_proto, info_of-derive_info,
  declared, declared_secret, Reports, derive_info-Reports,
}
use criteria_go_adapter_sdk.Manifest.{
  FieldDoc, SecretDoc, ManifestDoc, field_doc, schema_from_proto, secrets_from_map,
  build_manifest_doc, sdk_protocol_version, manifest_from_spec,
}

schema-DistinctKeys : (fs : Schema) → DistinctKeys (fields_of (adapter_schema_proto fs))
schema-DistinctKeys fs =
    subst DistinctKeys (sym (fields_of-adapter_schema_proto fs))
      (put_all-DistinctKeys config_field [] (by_name fs) tt)

-- The description under which a secret stands in the manifest.
abbrev pub described : String → List SecretDoc → Option String
described n [] = none
described n (s ∷ ss) = if s.name == n then some s.description else described n ss

described-secrets_from_map :
    (n : String) (m : List (String × String)) → described n (secrets_from_map m) ≡ lookup n m
unfolding secrets_from_map
described-secrets_from_map n [] = refl
described-secrets_from_map n ((name, desc) ∷ rest) =
    ground (arith, described-secrets_from_map n rest)

-- A field of the document says of a declared one what it declares.
pub record Documents (f : SchemaField) (d : FieldDoc) : Type 0 where
  pub type : d.type ≡ f.type
  pub required : d.required ≡ f.required
  pub description : d.description ≡ f.description
  pub default : d.default ≡ f.default
  pub sensitive : d.sensitive ≡ f.sensitive

-- The manifest shows the spec's name and version, the declared fields and the declared secrets.
pub record Shows {Any : Type 0} (spec : Spec Any) (doc : ManifestDoc) : Type 0 where
  pub name : doc.name ≡ spec.name
  pub version : doc.version ≡ spec.version
  pub protocol : doc.sdk_protocol_version ≡ pos 2
  pub config :
      (n : String) → Both Documents (declared n spec.config_schema) (lookup n doc.config_schema)
  pub input :
      (n : String) → Both Documents (declared n spec.input_schema) (lookup n doc.input_schema)
  pub output :
      (n : String) → Both Documents (declared n spec.output_schema) (lookup n doc.output_schema)
  pub secrets : (n : String) → described n doc.secrets ≡ declared_secret n spec.secrets

documented_lem :
    (o : Option SchemaField) → Both Documents o (map_value field_doc (map_value config_field o))
documented_lem none = tt
documented_lem (some f) = record {
  type = refl;
  required = refl;
  description = refl;
  default = refl;
  sensitive = refl;
}

schema-Documents :
    (n : String) (fs : Schema)
    → Distinct (field_names fs)
    → Both Documents (declared n fs) (lookup n (schema_from_proto (adapter_schema_proto fs)))
unfolding schema_from_proto
schema-Documents n fs d =
    subst (Both Documents (declared n fs))
      (sym (
        lookup-copy field_doc n (fields_of (adapter_schema_proto fs)) (schema-DistinctKeys fs)
        ∙ ap (map_value field_doc) (lookup-adapter_schema_proto n fs d)))
      (documented_lem (declared n fs))

module _ {Any : Type 0} (read : String → Result String String) (spec : Spec Any) where
  shows :
      (ws : List WireExample)
      → IsValid spec
      → Reports read spec (info_of read spec ws)
      → Shows spec (build_manifest_doc (info_of read spec ws))
  unfolding build_manifest_doc sdk_protocol_version
  shows ws v r = record {
    name = refl;
    version = refl;
    protocol = refl;
    config = λ n. schema-Documents n spec.config_schema v.config.distinct;
    input = λ n. schema-Documents n spec.input_schema v.input.distinct;
    output = λ n. schema-Documents n spec.output_schema v.output.distinct;
    secrets = λ n. described-secrets_from_map n _ ∙ r.secrets n;
  }

  -- Whenever the manifest of a spec is rendered, it shows the spec's name and version, protocol version
  -- 2, under each name the field that each schema declares, with its type, required flag, description,
  -- default and sensitive flag, and no other field, and each declared secret with its description.
  pub manifest_from_spec-Shows :
      (doc : ManifestDoc) → manifest_from_spec read spec ≡ ok doc → Shows spec doc
  unfolding manifest_from_spec
  manifest_from_spec-Shows doc h =
      let (info, (p, q)) = bind_ok (derive_info read spec) _ doc h in
      let (ws, e) = info_of-derive_info read spec info p in
      let (v, r) = derive_info-Reports read spec info p in
      subst (Shows spec) (ap build_manifest_doc e ∙ ok_inj q)
        (shows ws v (subst (Reports read spec) (sym e) r))
