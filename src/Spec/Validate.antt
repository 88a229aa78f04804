-- ===== src/Spec/Validate.antt =====
-- adapterhost/spec.go, Spec.validate and SpecService.
use criteria_go_adapter_sdk.Base.{
  require, ℕ, ◌+◌, String, not, ◌&&◌, List, [], ◌∷◌, Option, none, some, Result, ok, err, ◌>>◌,
  contains, ◌==◌, if◌then◌else◌,
}
use criteria_go_adapter_sdk.Spec.{Schema, Secret, Example, Spec, is_set}

-- Each error with the values that its text shows, the spec's name first.
pub data SpecError : Type 0 where
  spec_is_nil name_required version_required : SpecError
  execute_required : String → SpecError
  duplicate_field type_required : String → String → String → SpecError
  duplicate_secret : String → String → SpecError
  example_name_required : String → ℕ → SpecError
  example_both example_neither : String → String → SpecError
  example_unreadable : String → String → String → SpecError

-- The loop over one schema; `seen` are the names met so far.
unfoldable pub check_fields : String → String → List String → Schema → Result SpecError (Unit {0})
check_fields spec schema seen [] = ok tt
check_fields spec schema seen (f ∷ fs) =
    if contains f.name seen
    then err (duplicate_field spec schema f.name)
    else if f.type == ""
    then err (type_required spec schema f.name)
    else check_fields spec schema (f.name ∷ seen) fs

unfoldable pub check_secrets : String → List String → List Secret → Result SpecError (Unit {0})
check_secrets spec seen [] = ok tt
check_secrets spec seen (s ∷ ss) =
    if contains s.name seen
    then err (duplicate_secret spec s.name)
    else check_secrets spec (s.name ∷ seen) ss

unfoldable pub check_examples : String → ℕ → List Example → Result SpecError (Unit {0})
check_examples spec i [] = ok tt
check_examples spec i (ex ∷ exs) =
    if ex.name == ""
    then err (example_name_required spec i)
    else if not (ex.hcl == "") && not (ex.file == "")
    then err (example_both spec ex.name)
    else if ex.hcl == "" && ex.file == ""
    then err (example_neither spec ex.name)
    else check_examples spec (i + 1) exs

module _ {Any : Type 0} where
  unfoldable pub validate : Spec Any → Result SpecError (Unit {0})
  validate spec = do
    require (not (spec.name == "")) name_required
    require (not (spec.version == "")) version_required
    require (is_set spec.execute) (execute_required spec.name)
    check_fields spec.name "ConfigSchema" [] spec.config_schema
    check_fields spec.name "InputSchema" [] spec.input_schema
    check_fields spec.name "OutputSchema" [] spec.output_schema
    check_secrets spec.name [] spec.secrets
    check_examples spec.name 0 spec.examples

  -- SpecService; the service is the spec itself, and a nil spec is `none`.
  unfoldable pub spec_service : Option (Spec Any) → Result SpecError (Spec Any)
  spec_service none = err spec_is_nil
  spec_service (some spec) = do validate spec; ok spec
