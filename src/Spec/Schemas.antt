-- ===== src/Spec/Schemas.antt =====
-- What of a spec reaches the Info response.
use criteria_go_adapter_sdk.Base.{
  Distinct, ok_inj, bind_ok, ap, sym, String, ◌≡◌, ◌∙◌, refl, subst, ◌≢◌, ◌⊎◌, inl, inr, List, [],
  ◌∷◌, Option, none, some, Result, ok, ◌==◌, if◌then◌else◌, insert, lookup, arith, All,
  String-cases, Result-cases,
}
use criteria_go_adapter_sdk.Base.Copies.{put_all, names_of, DistinctKeys, map_value, lookup-copy}
use criteria_go_adapter_sdk.Wire.{ConfigField, WireSchema, fields_of, WireExample, InfoResponse}
use criteria_go_adapter_sdk.Spec.{SchemaField, Schema, Secret, Example, Spec}
use criteria_go_adapter_sdk.Spec.Validate.{validate}
use criteria_go_adapter_sdk.Spec.Valid.{field_names, secret_names, IsValid, validate_iff}
use criteria_go_adapter_sdk.Spec.Info.{
  config_field, put_fields, adapter_schema_proto, put_secrets, secret_map, resolve_hcl,
  resolve_examples, wire_example, info_of, derive_info,
}

-- The field that a schema declares under a name.
abbrev pub declared : String → Schema → Option SchemaField
declared n [] = none
declared n (f ∷ fs) = if f.name == n then some f else declared n fs

-- A field of the response says of a declared one what it declares.
pub record Describes (f : SchemaField) (c : ConfigField) : Type 0 where
  pub type : c.type ≡ f.type
  pub required : c.required ≡ f.required
  pub description : c.description ≡ f.description
  pub default : c.default_str ≡ f.default
  pub sensitive : c.sensitive ≡ f.sensitive

-- Both are there and related, or neither is.
abbrev pub Both : {A B : Type 0} → (A → B → Type 0) → Option A → Option B → Type 0
Both R none none = Unit
Both R none (some b) = ⊥
Both R (some a) none = ⊥
Both R (some a) (some b) = R a b

abbrev pub declared_secret : String → List Secret → Option String
declared_secret n [] = none
declared_secret n (s ∷ ss) = if s.name == n then some s.description else declared_secret n ss

-- A schema and a list of secrets as the maps that the loops read.
abbrev pub by_name : Schema → List (String × SchemaField)
by_name [] = []
by_name (f ∷ fs) = (f.name, f) ∷ by_name fs

abbrev pub described : List Secret → List (String × String)
described [] = []
described (s ∷ ss) = (s.name, s.description) ∷ described ss

pub put_fields-put_all :
    (m : WireSchema) (fs : Schema) → put_fields m fs ≡ put_all config_field m (by_name fs)
put_fields-put_all m [] = refl
put_fields-put_all m (f ∷ fs) = put_fields-put_all (insert f.name (config_field f) m) fs

pub put_secrets-put_all :
    (m : List (String × String)) (ss : List Secret)
    → put_secrets m ss ≡ put_all (λ v. v) m (described ss)
put_secrets-put_all m [] = refl
put_secrets-put_all m (s ∷ ss) = put_secrets-put_all (insert s.name s.description m) ss

names_of-by_name : (fs : Schema) → names_of (by_name fs) ≡ field_names fs
names_of-by_name [] = refl
names_of-by_name (f ∷ fs) = ap (λ ns. f.name ∷ ns) (names_of-by_name fs)

names_of-described : (ss : List Secret) → names_of (described ss) ≡ secret_names ss
names_of-described [] = refl
names_of-described (s ∷ ss) = ap (λ ns. s.name ∷ ns) (names_of-described ss)

pub by_name-DistinctKeys : (fs : Schema) → Distinct (field_names fs) → DistinctKeys (by_name fs)
by_name-DistinctKeys [] d = tt
by_name-DistinctKeys (f ∷ fs) d =
    (subst (All (λ m. f.name ≢ m)) (sym (names_of-by_name fs)) d.0, by_name-DistinctKeys fs d.1)

pub described-DistinctKeys :
    (ss : List Secret) → Distinct (secret_names ss) → DistinctKeys (described ss)
described-DistinctKeys [] d = tt
described-DistinctKeys (s ∷ ss) d =
    (subst (All (λ m. s.name ≢ m)) (sym (names_of-described ss)) d.0, described-DistinctKeys ss d.1)

lookup-by_name : (n : String) (fs : Schema) → lookup n (by_name fs) ≡ declared n fs
lookup-by_name n [] = refl
lookup-by_name n (f ∷ fs) = ground (arith, lookup-by_name n fs)

lookup-described :
    (n : String) (ss : List Secret)
    → map_value (λ v. v) (lookup n (described ss)) ≡ declared_secret n ss
lookup-described n [] = refl
lookup-described n (s ∷ ss) = ground (arith, lookup-described n ss)

-- What the loop over a schema leaves in the map, an empty schema's nil included.
pub fields_of-adapter_schema_proto :
    (fs : Schema) → fields_of (adapter_schema_proto fs) ≡ put_all config_field [] (by_name fs)
unfolding adapter_schema_proto
fields_of-adapter_schema_proto [] = refl
fields_of-adapter_schema_proto (f ∷ fs) = put_fields-put_all [] (f ∷ fs)

pub lookup-adapter_schema_proto :
    (n : String) (fs : Schema)
    → Distinct (field_names fs)
    → lookup n (fields_of (adapter_schema_proto fs)) ≡ map_value config_field (declared n fs)
lookup-adapter_schema_proto n fs d =
    ap (lookup n) (fields_of-adapter_schema_proto fs)
    ∙ (lookup-copy config_field n (by_name fs) (by_name-DistinctKeys fs d)
        ∙ ap (map_value config_field) (lookup-by_name n fs))

described_lem : (o : Option SchemaField) → Both Describes o (map_value config_field o)
described_lem none = tt
described_lem (some f) = record {
  type = refl;
  required = refl;
  description = refl;
  default = refl;
  sensitive = refl;
}

schema-Describes :
    (n : String) (fs : Schema)
    → Distinct (field_names fs)
    → Both Describes (declared n fs) (lookup n (fields_of (adapter_schema_proto fs)))
schema-Describes n fs d =
    subst (Both Describes (declared n fs)) (sym (lookup-adapter_schema_proto n fs d))
      (described_lem (declared n fs))

lookup-secret_map :
    (n : String) (ss : List Secret)
    → Distinct (secret_names ss)
    → lookup n (secret_map ss) ≡ declared_secret n ss
unfolding secret_map
lookup-secret_map n ss d =
    ap (lookup n) (put_secrets-put_all [] ss)
    ∙ (lookup-copy (λ v. v) n (described ss) (described-DistinctKeys ss d) ∙ lookup-described n ss)

-- The examples in order, each with its workflow inline: the text of its file where it names one.
abbrev pub Inlined : (String → Result String String) → List Example → List WireExample → Type 0
Inlined read [] [] = Unit
Inlined read [] (w ∷ ws) = ⊥
Inlined read (ex ∷ exs) [] = ⊥
Inlined read (ex ∷ exs) (w ∷ ws) =
    ((w.name ≡ ex.name)
      × ((w.description ≡ ex.description)
          × (((ex.file ≡ "") × (w.hcl ≡ ex.hcl)) ⊎ (read ex.file ≡ ok w.hcl))))
    × Inlined read exs ws

-- What of the spec the Info response shows.
pub record Reports {Any : Type 0} (read : String → Result String String) (spec : Spec Any)
    (info : InfoResponse) : Type 0 where
  pub name : info.name ≡ spec.name
  pub version : info.version ≡ spec.version
  pub config :
      (n : String)
      → Both Describes (declared n spec.config_schema) (lookup n (fields_of info.config_schema))
  pub input :
      (n : String)
      → Both Describes (declared n spec.input_schema) (lookup n (fields_of info.input_schema))
  pub output :
      (n : String)
      → Both Describes (declared n spec.output_schema) (lookup n (fields_of info.output_schema))
  pub secrets : (n : String) → lookup n info.secrets ≡ declared_secret n spec.secrets
  pub examples : Inlined read spec.examples info.examples

module _ (read : String → Result String String) where
  resolve_hcl_lem :
      (ex : Example) (hcl : String)
      → resolve_hcl read ex ≡ ok hcl
      → ((ex.file ≡ "") × (hcl ≡ ex.hcl)) ⊎ (read ex.file ≡ ok hcl)
  resolve_hcl_lem ex hcl h = elim (String-cases ex.file "") [
    | inl (e, p) ↦ inl (p, (ground arith))
    | inr (e, p) ↦ elim (Result-cases (read ex.file)) [
      | inl (a, q) ↦ inr (ground arith)
      | inr (a, q) ↦ ground arith
    ]
  ]

  resolve_examples-Inlined :
      (exs : List Example) (ws : List WireExample)
      → resolve_examples read exs ≡ ok ws
      → Inlined read exs ws
  unfolding resolve_examples
  resolve_examples-Inlined [] [] h = tt
  resolve_examples-Inlined [] (w ∷ ws) h = ground arith
  resolve_examples-Inlined (ex ∷ exs) ws h = elim (Result-cases (resolve_hcl read ex)) [
    | inl (hcl, p) ↦ elim (Result-cases (resolve_examples read exs)) [
      | inl (rest, q) ↦
          subst (Inlined read (ex ∷ exs)) {x = wire_example ex hcl ∷ rest} (ground arith)
            ((refl, (refl, resolve_hcl_lem ex hcl p)), resolve_examples-Inlined exs rest q)
      | inr (e, q) ↦ ground arith
    ]
    | inr (e, p) ↦ ground arith
  ]

module _ {Any : Type 0} (read : String → Result String String) (spec : Spec Any) where
  info_of-Reports :
      (ws : List WireExample)
      → IsValid spec
      → resolve_examples read spec.examples ≡ ok ws
      → Reports read spec (info_of read spec ws)
  info_of-Reports ws v h = record {
    name = refl;
    version = refl;
    config = λ n. schema-Describes n spec.config_schema v.config.distinct;
    input = λ n. schema-Describes n spec.input_schema v.input.distinct;
    output = λ n. schema-Describes n spec.output_schema v.output.distinct;
    secrets = λ n. lookup-secret_map n spec.secrets v.secrets;
    examples = resolve_examples-Inlined read spec.examples ws h;
  }

  -- Whenever Info answers, the spec is valid, and the response shows its name and version, under each
  -- name the field that each schema declares, with its type, required flag, description, default and
  -- sensitive flag, and no other field, each declared secret, and the examples in order with the
  -- text of the file where one is named.
  pub derive_info-Reports :
      (info : InfoResponse)
      → derive_info read spec ≡ ok info
      → IsValid spec × Reports read spec info
  unfolding derive_info
  derive_info-Reports info h = elim (Result-cases (validate spec)) [
    | inl (u, p) ↦ elim (Result-cases (resolve_examples read spec.examples)) [
      | inl (ws, q) ↦ (
        ((validate_iff spec).0 p),
        subst (Reports read spec) (ground arith) (info_of-Reports ws ((validate_iff spec).0 p) q),
      )
      | inr (e, q) ↦ ground arith
    ]
    | inr (e, p) ↦ ground arith
  ]

  pub info_of-derive_info :
      (info : InfoResponse)
      → derive_info read spec ≡ ok info
      → (ws : List WireExample) × (info_of read spec ws ≡ info)
  unfolding derive_info
  info_of-derive_info info h =
      let (_, (_, h1)) = bind_ok (validate spec) _ info h in
      let (ws, (_, h2)) = bind_ok (resolve_examples read spec.examples) _ info h1 in (ws, ok_inj h2)
