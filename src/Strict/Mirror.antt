-- ===== src/Strict/Mirror.antt =====
-- The manifest that the strict decoder reads in an emitted document, part by part against the spec.
use criteria_go_adapter_sdk.Base.{
  Distinct, String-cases, String, refl, sym, subst, ◌≢◌, ◌↔◌, inl, inr, List, [], ◌∷◌, Option, none,
  some, All, arith,
}
use criteria_go_adapter_sdk.Base.Int.{pos}
use criteria_go_adapter_sdk.Base.Regex.Language.{In}
use criteria_go_adapter_sdk.Base.Copies.{put_all, Entries, Entries-copy, put_all-DistinctKeys}
use criteria_go_adapter_sdk.Wire.{fields_of}
use criteria_go_adapter_sdk.Spec
use criteria_go_adapter_sdk.Spec.{Spec, SchemaField}
use criteria_go_adapter_sdk.Spec.Valid.{field_names, secret_names}
use criteria_go_adapter_sdk.Spec.Info.{config_field, adapter_schema_proto, secret_map, put_secrets}
use criteria_go_adapter_sdk.Spec.Schemas.{
  by_name, described, by_name-DistinctKeys, described-DistinctKeys, fields_of-adapter_schema_proto,
  put_secrets-put_all,
}
use criteria_go_adapter_sdk.Manifest.{
  PlatformDoc, FieldDoc, SecretDoc, ContainerImageDoc, ManifestDoc, field_doc, schema_from_proto,
  secrets_from_map, platform_doc, platforms_from_strings, cut, image_doc,
}
use criteria_go_adapter_sdk.Strict.Patterns.{
  name_pattern, os_pattern, arch_pattern, url_scheme_pattern, version_pattern, field_type_pattern,
}
use criteria_go_adapter_sdk.Strict.{Platform, Field, Schema, Secret, ContainerImage, Manifest}
use criteria_go_adapter_sdk.Strict.Accepted.{IsPlatform, Typed, IsEnvironment, HasRef}

-- The manifest that the decoder reads in an emitted document: the JSON names of the two are the same.
abbrev pub read_field : FieldDoc → Field
read_field f = record {
  type = f.type;
  required = f.required;
  description = f.description;
  sensitive = f.sensitive;
}

abbrev pub read_fields : List (String × FieldDoc) → Schema
read_fields [] = []
read_fields ((name, f) ∷ fs) = (name, read_field f) ∷ read_fields fs

abbrev pub read_secrets : List SecretDoc → List Secret
read_secrets [] = []
read_secrets (s ∷ ss) =
    record { name = s.name; description = s.description; required = s.required } ∷ read_secrets ss

abbrev pub read_platforms : List PlatformDoc → List Platform
read_platforms [] = []
read_platforms (p ∷ ps) = record { os = p.os; arch = p.arch } ∷ read_platforms ps

abbrev pub read_image : Option ContainerImageDoc → Option ContainerImage
read_image none = none
read_image (some i) = some (record { ref = i.ref; digest = i.digest })

abbrev pub mirror : ManifestDoc → Manifest
mirror d = record {
  schema_version = pos d.schema_version;
  name = d.name;
  version = d.version;
  description = d.description;
  source_url = d.source_url;
  capabilities = d.capabilities;
  platforms = read_platforms d.platforms;
  sdk_protocol_version = d.sdk_protocol_version;
  config_schema = some (read_fields d.config_schema);
  input_schema = some (read_fields d.input_schema);
  output_schema = some (read_fields d.output_schema);
  secrets = read_secrets d.secrets;
  permissions = d.permissions;
  compatible_environments = d.compatible_environments;
  container_image = read_image d.container_image;
}

abbrev pub IsPlatformText : String → Type 0
IsPlatformText p =
    In os_pattern (platform_doc p (cut p)).os × In arch_pattern (platform_doc p (cut p)).arch

abbrev pub HasStrictType : SchemaField → Type 0
HasStrictType f = In field_type_pattern f.type

-- What a valid spec needs beyond being valid.
pub record IsPublishableSpec {Any : Type 0} (spec : Spec Any) : Type 0 where
  pub name : In name_pattern spec.name
  pub version : In version_pattern spec.version
  pub source_url : In url_scheme_pattern spec.source_url
  pub some_platform : spec.platforms ≢ []
  pub platforms : All IsPlatformText spec.platforms
  pub config : All HasStrictType spec.config_schema
  pub input : All HasStrictType spec.input_schema
  pub output : All HasStrictType spec.output_schema
  pub secrets : All (λ s. s.name ≢ "") spec.secrets
  pub environments : All IsEnvironment spec.compatible_environments

read_fields_iff :
    (fs : List (String × FieldDoc))
    → Entries (λ name f. In field_type_pattern f.type) (read_fields fs)
      ↔ Entries (λ name f. In field_type_pattern f.type) fs
read_fields_iff [] = ((λ h. tt), λ h. tt)
read_fields_iff ((name, f) ∷ fs) =
    let (to, from) = read_fields_iff fs in ((λ h. (h.0, to h.1)), λ h. (h.0, from h.1))

by_name_iff :
    (fs : List SchemaField)
    → Entries (λ name f. In field_type_pattern f.type) (by_name fs) ↔ All HasStrictType fs
by_name_iff [] = ((λ h. tt), λ h. tt)
by_name_iff (f ∷ fs) =
    let (to, from) = by_name_iff fs in ((λ h. (h.0, to h.1)), λ h. (h.0, from h.1))

-- The types of a schema's fields, in the manifest and in the spec.
pub types_iff :
    (fs : List SchemaField)
    → Distinct (field_names fs)
    → Typed (some (read_fields (schema_from_proto (adapter_schema_proto fs))))
      ↔ All HasStrictType fs
unfolding schema_from_proto
types_iff fs d =
    let doc_iff = read_fields_iff (put_all field_doc [] (fields_of (adapter_schema_proto fs))) in
    let filled = put_all config_field [] (by_name fs) in
    let wire_iff =
      Entries-copy field_doc (λ name f. In field_type_pattern f.type) filled
        (put_all-DistinctKeys config_field [] (by_name fs) tt) in
    let spec_iff =
      Entries-copy config_field (λ name f. In field_type_pattern f.type) (by_name fs)
        (by_name-DistinctKeys fs d) in
    let e = fields_of-adapter_schema_proto fs in
    let named = by_name_iff fs in
    (
      (λ h. named.0 (
          spec_iff.0 (
            wire_iff.0 (
              subst (λ m. Entries (λ name f. In field_type_pattern f.type) (put_all field_doc [] m))
                e (doc_iff.0 h))))),
      (λ h. doc_iff.1 (
          subst (λ m. Entries (λ name f. In field_type_pattern f.type) (put_all field_doc [] m))
            (sym e) (wire_iff.1 (spec_iff.1 (named.1 h))))),
    )

pub platforms_iff :
    (ps : List String)
    → All IsPlatform (read_platforms (platforms_from_strings ps)) ↔ All IsPlatformText ps
unfolding platforms_from_strings
platforms_iff [] = ((λ h. tt), λ h. tt)
platforms_iff (p ∷ ps) =
    let (to, from) = platforms_iff ps in ((λ h. (h.0, to h.1)), λ h. (h.0, from h.1))

pub some_platform_iff :
    (ps : List String) → (read_platforms (platforms_from_strings ps) ≢ []) ↔ (ps ≢ [])
unfolding platforms_from_strings
some_platform_iff [] = ((λ h. absurd (h refl)), λ h. absurd (h refl))
some_platform_iff (p ∷ ps) = ((λ h q. ground arith), λ h q. ground arith)

secrets_from_map_iff :
    (m : List (String × String))
    → All (λ s. s.name ≢ "") (read_secrets (secrets_from_map m))
      ↔ Entries (λ name desc. name ≢ "") m
unfolding secrets_from_map
secrets_from_map_iff [] = ((λ h. tt), λ h. tt)
secrets_from_map_iff ((name, desc) ∷ m) =
    let (to, from) = secrets_from_map_iff m in ((λ h. (h.0, to h.1)), λ h. (h.0, from h.1))

described_iff :
    (ss : List Spec.Secret)
    → Entries (λ name desc. name ≢ "") (described ss) ↔ All (λ s. s.name ≢ "") ss
described_iff [] = ((λ h. tt), λ h. tt)
described_iff (s ∷ ss) =
    let (to, from) = described_iff ss in ((λ h. (h.0, to h.1)), λ h. (h.0, from h.1))

pub secret_names_iff :
    (ss : List Spec.Secret)
    → Distinct (secret_names ss)
    → All (λ s. s.name ≢ "") (read_secrets (secrets_from_map (secret_map ss)))
      ↔ All (λ s. s.name ≢ "") ss
unfolding secret_map
secret_names_iff ss d =
    let e = put_secrets-put_all [] ss in
    let copy_iff =
      Entries-copy (λ v. v) (λ name desc. name ≢ "") (described ss) (described-DistinctKeys ss d) in
    let from_map = secrets_from_map_iff (put_secrets [] ss) in
    let named = described_iff ss in
    (
      (λ h. named.0 (copy_iff.0 (subst (Entries (λ name desc. name ≢ "")) e (from_map.0 h)))),
      (λ h. from_map.1 (subst (Entries (λ name desc. name ≢ "")) (sym e) (copy_iff.1 (named.1 h)))),
    )

pub image-HasRef : (image : String) → HasRef (read_image (image_doc image))
image-HasRef image = elim (String-cases image "") [ inl (e, p) ↦ rw e tt | inr (e, p) ↦ rw e p ]
