-- ===== src/Manifest.antt =====
-- adapterhost/manifest.go, up to the JSON encoder: the document that --emit-manifest prints.
pub mod Shown
pub mod Platforms
mod Tests
use Prim.Native.Char.{Char, code}
use Prim.Native.String
use criteria_go_adapter_sdk.Base.{
  ℕ, zero, suc, ◌+◌, ◌*◌, ◌-◌, ◌^◌, leb, ltb, num_eq, ◌&&◌, ◌||◌, String, Bool, true, false, List,
  [], ◌∷◌, Option, none, some, Result, ok, err, ◌>>=◌, wrap_err, ◌==◌, if◌then◌else◌, contains,
}
use criteria_go_adapter_sdk.Base.Int.{ℤ, pos, negsuc}
use criteria_go_adapter_sdk.Base.Sort.{codes}
use criteria_go_adapter_sdk.Base.Copies.{put_all}
use criteria_go_adapter_sdk.Wire.{Bytes, ConfigField, WireSchema, fields_of, InfoResponse}
use criteria_go_adapter_sdk.Spec.{Spec}
use criteria_go_adapter_sdk.Spec.Validate.{SpecError}
use criteria_go_adapter_sdk.Spec.Info.{derive_info}

unfoldable pub emit_manifest_requested : List String → Bool
emit_manifest_requested args = contains "--emit-manifest" args

pub record PlatformDoc : Type 0 where
  pub os : String
  pub arch : String

pub record FieldDoc : Type 0 where
  pub type : String
  pub required : Bool
  pub description : String
  pub default : String
  pub sensitive : Bool

pub record SecretDoc : Type 0 where
  pub name : String
  pub description : String
  pub required : Bool

pub record ContainerImageDoc : Type 0 where
  pub ref : String
  pub digest : String

-- A schema document is its one field. A nil list reads like the empty one, which `nonNil` makes of it.
pub record ManifestDoc : Type 0 where
  pub schema_version : ℕ
  pub name : String
  pub version : String
  pub description : String
  pub source_url : String
  pub capabilities : List String
  pub platforms : List PlatformDoc
  pub sdk_protocol_version : ℤ
  pub config_schema : List (String × FieldDoc)
  pub input_schema : List (String × FieldDoc)
  pub output_schema : List (String × FieldDoc)
  pub secrets : List SecretDoc
  pub permissions : List String
  pub compatible_environments : List String
  pub container_image : Option ContainerImageDoc

-- strings.Cut at "/": the texts before and behind the first one.
abbrev pub in_front : Char → Option (String × String) → Option (String × String)
in_front c none = none
in_front c (some (os, arch)) = some (String.◌∷◌ c os, arch)

abbrev pub cut : String → Option (String × String)
cut String.[] = none
cut (String.◌∷◌ c s) =
    let rest = cut s in if num_eq (code c) 47 then some ("", s) else in_front c rest

abbrev pub platform_doc : String → Option (String × String) → PlatformDoc
platform_doc p none = record { os = p; arch = "" }
platform_doc p (some (os, arch)) = record { os = os; arch = arch }

unfoldable pub platforms_from_strings : List String → List PlatformDoc
platforms_from_strings [] = []
platforms_from_strings (p ∷ ps) = platform_doc p (cut p) ∷ platforms_from_strings ps

-- unicode.IsSpace.
abbrev pub is_space : ℕ → Bool
is_space c =
    (leb 9 c && leb c 13)
    || num_eq c 32
    || num_eq c 133
    || num_eq c 160
    || num_eq c 5760
    || (leb 8192 c && leb c 8202)
    || num_eq c 8232
    || num_eq c 8233
    || num_eq c 8239
    || num_eq c 8287
    || num_eq c 12288

abbrev pub trim_left : List ℕ → List ℕ
trim_left [] = []
trim_left (c ∷ cs) = if is_space c then trim_left cs else c ∷ cs

abbrev pub backwards : List ℕ → List ℕ → List ℕ
backwards [] acc = acc
backwards (c ∷ cs) acc = backwards cs (c ∷ acc)

abbrev pub trim_space : List ℕ → List ℕ
trim_space cs = backwards (trim_left (backwards (trim_left cs) [])) []

abbrev pub digits : ℕ → List ℕ → Option ℕ
digits acc [] = some acc
digits acc (c ∷ cs) = if leb 48 c && leb c 57 then digits (acc * 10 + (c - 48)) cs else none

abbrev pub unsigned : List ℕ → Option ℕ
unsigned [] = none
unsigned (c ∷ cs) = digits 0 (c ∷ cs)

-- In the range of int64, or an error.
abbrev pub in_range : Bool → Option ℕ → Option ℤ
in_range negative none = none
in_range false (some n) = if ltb n (2 ^ 63) then some (pos n) else none
in_range true (some zero) = some (pos 0)
in_range true (some (suc n)) = if ltb n (2 ^ 63) then some (negsuc n) else none

-- strconv.Atoi, where an error is `none`.
abbrev pub atoi : List ℕ → Option ℤ
atoi [] = none
atoi (c ∷ cs) =
    if num_eq c 45
    then in_range true (unsigned cs)
    else if num_eq c 43
    then in_range false (unsigned cs)
    else in_range false (unsigned (c ∷ cs))

abbrev pub or_two : Option ℤ → ℤ
or_two none = pos 2
or_two (some v) = v

unfoldable pub sdk_protocol_version : String → ℤ
sdk_protocol_version s = or_two (atoi (trim_space (codes s)))

abbrev pub field_doc : ConfigField → FieldDoc
field_doc f = record {
  type = f.type;
  required = f.required;
  description = f.description;
  default = f.default_str;
  sensitive = f.sensitive;
}

unfoldable pub schema_from_proto : Option WireSchema → List (String × FieldDoc)
schema_from_proto s = put_all field_doc [] (fields_of s)

-- In the order in which the loop meets the map's keys.
unfoldable pub secrets_from_map : List (String × String) → List SecretDoc
secrets_from_map [] = []
secrets_from_map ((name, desc) ∷ rest) =
    record { name = name; description = desc; required = true } ∷ secrets_from_map rest

abbrev pub image_doc : String → Option ContainerImageDoc
image_doc image = if image == "" then none else some (record { ref = image; digest = "" })

unfoldable pub build_manifest_doc : InfoResponse → ManifestDoc
build_manifest_doc info = record {
  schema_version = 1;
  name = info.name;
  version = info.version;
  description = info.description;
  source_url = info.source_url;
  capabilities = info.capabilities;
  platforms = platforms_from_strings info.platforms;
  sdk_protocol_version = sdk_protocol_version info.sdk_protocol_version;
  config_schema = schema_from_proto info.config_schema;
  input_schema = schema_from_proto info.input_schema;
  output_schema = schema_from_proto info.output_schema;
  secrets = secrets_from_map info.secrets;
  permissions = info.permissions;
  compatible_environments = info.compatible_environments;
  container_image = image_doc info.container_image;
}

-- adapterhost/spec.go, emitManifestFromSpec, up to the encoder.
unfoldable pub manifest_from_spec :
    {Any : Type 0} → (String → Result String String) → Spec Any → Result SpecError ManifestDoc
manifest_from_spec read spec = do info ← derive_info read spec; ok (build_manifest_doc info)

pub data ManifestError : Type 0 where
  no_info nil_implementation : ManifestError
  spec_failed : SpecError → ManifestError
  encode_failed info_failed : String → ManifestError

-- `encode` is the JSON encoder on the document; a nil response is `none`.
module _ (encode : ManifestDoc → Result String Bytes) where
  unfoldable pub render_manifest : Option InfoResponse → Result ManifestError Bytes
  render_manifest none = err no_info
  render_manifest (some info) = wrap_err encode_failed (encode (build_manifest_doc info))

  abbrev pub render_info : Result String (Option InfoResponse) → Result ManifestError Bytes
  render_info (err e) = err (info_failed e)
  render_info (ok info) = render_manifest info

  -- The implementation, nil or not, as what its Info answers.
  unfoldable pub emit_manifest_from_service :
      Option (Result String (Option InfoResponse)) → Result ManifestError Bytes
  emit_manifest_from_service none = err nil_implementation
  emit_manifest_from_service (some info) = render_info info

  -- emitManifestFromSpec.
  unfoldable pub emit_manifest_from_spec :
      {Any : Type 0} → (String → Result String String) → Spec Any → Result ManifestError Bytes
  emit_manifest_from_spec read spec = do
    info ← wrap_err spec_failed (derive_info read spec)
    render_manifest (some info)

-- What --emit-manifest makes of the process: it serves on, it exits with status 1, or it has written
-- these bytes and is done.
pub data Emission : Type 0 where
  not_requested exits_one : Emission
  handled : Bytes → Emission

abbrev pub write_manifest : (Bytes → Option String) → Result ManifestError Bytes → Emission
write_manifest stdout (err e) = exits_one
write_manifest stdout (ok b) = elim (stdout b) [ none ↦ handled b | some e ↦ exits_one ]

unfoldable pub run_emit_manifest_if_requested :
    List String → (Bytes → Option String) → Result ManifestError Bytes → Emission
run_emit_manifest_if_requested args stdout rendered =
    if emit_manifest_requested args then write_manifest stdout rendered else not_requested
