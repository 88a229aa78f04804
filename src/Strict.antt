-- ===== src/Strict.antt =====
-- internal/strictmanifest/strictmanifest.go: the host's manifest rules, restated for the SDK's tests. The
-- JSON decoder is a parameter, and a field's Default, which no rule reads, is left out.
pub mod Patterns
pub mod Accepted
pub mod Mirror
pub mod Published
mod Tests
use criteria_go_adapter_sdk.Base.{
  ℕ, ◌+◌, String, Bool, true, false, not, ◌&&◌, ◌||◌, List, [], ◌∷◌, Option, none, some, Result, ok,
  err, ◌>>=◌, ◌>>◌, wrap_err, require, ◌==◌, if◌then◌else◌,
}
use criteria_go_adapter_sdk.Base.Int.{ℤ, pos, int_gt, int_eq}
use criteria_go_adapter_sdk.Base.Regex.{match_string}
use criteria_go_adapter_sdk.Wire.{Bytes}
use criteria_go_adapter_sdk.Strict.Patterns.{
  name_pattern, os_pattern, arch_pattern, env_pattern, url_scheme_pattern, version_pattern,
  field_type_pattern,
}

pub record Platform : Type 0 where
  pub os : String
  pub arch : String

pub record Field : Type 0 where
  pub type : String
  pub required : Bool
  pub description : String
  pub sensitive : Bool

-- The struct Schema, by its one field; the order is that of the range loop.
abbrev pub Schema : Type 0
Schema = List (String × Field)

pub record Secret : Type 0 where
  pub name : String
  pub description : String
  pub required : Bool

pub record ContainerImage : Type 0 where
  pub ref : String
  pub digest : String

pub record Manifest : Type 0 where
  pub schema_version : ℤ
  pub name : String
  pub version : String
  pub description : String
  pub source_url : String
  pub capabilities : List String
  pub platforms : List Platform
  pub sdk_protocol_version : ℤ
  pub config_schema : Option Schema
  pub input_schema : Option Schema
  pub output_schema : Option Schema
  pub secrets : List Secret
  pub permissions : List String
  pub compatible_environments : List String
  pub container_image : Option ContainerImage

-- Each error with the values that its text shows.
pub data StrictError : Type 0 where
  not_decoded : String → StrictError
  trailing_content : StrictError
  bad_schema_version bad_protocol_version : ℤ → StrictError
  bad_name bad_version bad_source_url bad_os bad_arch bad_environment : String → StrictError
  source_url_required platform_required image_ref_required : StrictError
  bad_type : String → String → String → StrictError
  secret_name_required : ℕ → StrictError

abbrev pub manifest_max_schema_version : ℤ
manifest_max_schema_version = pos 1

abbrev pub check_platforms : List Platform → Result StrictError (Unit {0})
check_platforms [] = ok tt
check_platforms (p ∷ ps) =
    if not (match_string os_pattern p.os)
    then err (bad_os p.os)
    else if not (match_string arch_pattern p.arch)
    then err (bad_arch p.arch)
    else check_platforms ps

abbrev pub check_types : String → Schema → Result StrictError (Unit {0})
check_types key [] = ok tt
check_types key ((name, f) ∷ fs) =
    if match_string field_type_pattern f.type
    then check_types key fs
    else err (bad_type key name f.type)

-- A nil schema is `none`.
abbrev pub validate_schema : String → Option Schema → Result StrictError (Unit {0})
validate_schema key none = ok tt
validate_schema key (some s) = check_types key s

abbrev pub check_secrets : ℕ → List Secret → Result StrictError (Unit {0})
check_secrets i [] = ok tt
check_secrets i (s ∷ ss) =
    if s.name == "" then err (secret_name_required i) else check_secrets (i + 1) ss

abbrev pub check_environments : List String → Result StrictError (Unit {0})
check_environments [] = ok tt
check_environments (env ∷ envs) =
    if not (env == "*") && not (match_string env_pattern env)
    then err (bad_environment env)
    else check_environments envs

abbrev pub check_image : Option ContainerImage → Result StrictError (Unit {0})
check_image none = ok tt
check_image (some image) = require (not (image.ref == "")) image_ref_required

abbrev pub in_range : ℤ → ℤ → ℤ → Bool
in_range lo hi v = not (int_gt lo v || int_gt v hi)

abbrev pub is_some : List Platform → Bool
is_some [] = false
is_some (p ∷ ps) = true

unfoldable pub validate : Manifest → Result StrictError (Unit {0})
validate m = do
  require (in_range (pos 1) manifest_max_schema_version m.schema_version)
      (bad_schema_version m.schema_version)
  require (match_string name_pattern m.name) (bad_name m.name)
  require (match_string version_pattern m.version) (bad_version m.version)
  require (not (m.source_url == "")) source_url_required
  require (match_string url_scheme_pattern m.source_url) (bad_source_url m.source_url)
  require (int_eq m.sdk_protocol_version (pos 2)) (bad_protocol_version m.sdk_protocol_version)
  require (is_some m.platforms) platform_required
  check_platforms m.platforms
  validate_schema "config_schema" m.config_schema
  validate_schema "input_schema" m.input_schema
  validate_schema "output_schema" m.output_schema
  check_secrets 0 m.secrets
  check_environments m.compatible_environments
  check_image m.container_image

-- `decode` answers the manifest and whether something follows it.
module _ (decode : Bytes → Result String (Manifest × Bool)) where
  abbrev pub no_more : Manifest × Bool → Result StrictError Manifest
  no_more (m, more) = if more then err trailing_content else ok m

  unfoldable pub parse : Bytes → Result StrictError Manifest
  parse text = do decoded ← wrap_err not_decoded (decode text); no_more decoded
