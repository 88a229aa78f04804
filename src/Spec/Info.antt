-- ===== src/Spec/Info.antt =====
-- adapterhost/spec.go, deriveInfo and what it is made of. Reading a file is a parameter.
use criteria_go_adapter_sdk.Base.{
  String, Bool, List, [], ◌∷◌, Option, none, some, Result, ok, ◌>>=◌, ◌>>◌, ◌==◌, if◌then◌else◌,
  insert, wrap_err,
}
use criteria_go_adapter_sdk.Wire.{ConfigField, WireSchema, WireExample, InfoResponse}
use criteria_go_adapter_sdk.Spec.{SchemaField, Schema, Secret, Example, Spec, is_set}
use criteria_go_adapter_sdk.Spec.Validate.{SpecError, example_unreadable, validate}

abbrev pub feature_pause : String
feature_pause = "pause"

abbrev pub feature_resume : String
feature_resume = "resume"

abbrev pub feature_snapshot : String
feature_snapshot = "snapshot"

abbrev pub feature_restore : String
feature_restore = "restore"

abbrev pub feature_inspect : String
feature_inspect = "inspect"

-- The loop over the table of names and flags.
abbrev pub set_names : List (String × Bool) → List String
set_names [] = []
set_names ((name, set) ∷ fs) = if set then name ∷ set_names fs else set_names fs

abbrev pub verb_flags : {Any : Type 0} → Spec Any → List (String × Bool)
verb_flags spec =
    (feature_pause, is_set spec.pause)
    ∷ (feature_resume, is_set spec.resume)
    ∷ (feature_snapshot, is_set spec.snapshot)
    ∷ (feature_restore, is_set spec.restore)
    ∷ (feature_inspect, is_set spec.inspect)
    ∷ []

abbrev pub override : Option (List String) → List String → List String
override none derived = derived
override (some features) derived = features

unfoldable pub supported_features_from_spec : {Any : Type 0} → Spec Any → List String
supported_features_from_spec spec = override spec.supported_features (set_names (verb_flags spec))

abbrev pub wire_protocol_version : String
wire_protocol_version = "2"

abbrev pub config_field : SchemaField → ConfigField
config_field f = record {
  type = f.type;
  required = f.required;
  description = f.description;
  default_str = f.default;
  sensitive = f.sensitive;
}

-- The loop that fills the map.
abbrev pub put_fields : WireSchema → Schema → WireSchema
put_fields m [] = m
put_fields m (f ∷ fs) = put_fields (insert f.name (config_field f) m) fs

unfoldable pub adapter_schema_proto : Schema → Option WireSchema
adapter_schema_proto [] = none
adapter_schema_proto (f ∷ fs) = some (put_fields [] (f ∷ fs))

abbrev pub put_secrets : List (String × String) → List Secret → List (String × String)
put_secrets m [] = m
put_secrets m (s ∷ ss) = put_secrets (insert s.name s.description m) ss

-- The nil map of no secrets reads as the empty one.
unfoldable pub secret_map : List Secret → List (String × String)
secret_map secrets = put_secrets [] secrets

abbrev pub wire_example : Example → String → WireExample
wire_example ex hcl = record { name = ex.name; description = ex.description; hcl = hcl }

module _ (read_file : String → Result String String) where
  abbrev pub resolve_hcl : Example → Result SpecError String
  resolve_hcl ex =
      if ex.file == ""
      then ok ex.hcl
      else wrap_err (example_unreadable ex.name ex.file) (read_file ex.file)

  unfoldable pub resolve_examples : List Example → Result SpecError (List WireExample)
  resolve_examples [] = ok []
  resolve_examples (ex ∷ exs) = do
    hcl ← resolve_hcl ex
    rest ← resolve_examples exs
    ok (wire_example ex hcl ∷ rest)

  abbrev pub info_of : {Any : Type 0} → Spec Any → List WireExample → InfoResponse
  info_of spec examples = record {
    name = spec.name;
    version = spec.version;
    description = spec.description;
    capabilities = spec.capabilities;
    platforms = spec.platforms;
    sdk_protocol_version = wire_protocol_version;
    source_url = spec.source_url;
    config_schema = adapter_schema_proto spec.config_schema;
    input_schema = adapter_schema_proto spec.input_schema;
    output_schema = adapter_schema_proto spec.output_schema;
    secrets = secret_map spec.secrets;
    permissions = spec.permissions;
    compatible_environments = spec.compatible_environments;
    container_image = spec.container_image;
    supported_features = supported_features_from_spec spec;
    max_chunk_bytes = spec.max_chunk_bytes;
    examples = examples;
  }

  unfoldable pub derive_info : {Any : Type 0} → Spec Any → Result SpecError InfoResponse
  derive_info spec = do
    validate spec
    examples ← resolve_examples spec.examples
    ok (info_of spec examples)
