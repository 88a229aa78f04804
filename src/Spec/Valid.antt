-- ===== src/Spec/Valid.antt =====
-- What Spec.validate accepts.
use criteria_go_adapter_sdk.Base.{
  Distinct, not_empty_iff, require_iff, ℕ, ◌+◌, String, ◌≡◌, refl, ◌≢◌, ◌↔◌, ◌⊎◌, true, false, List,
  [], ◌∷◌, ok, contains, All, arith, eq_iff, then_iff,
}
use criteria_go_adapter_sdk.Spec.{SchemaField, Schema, Secret, Example, Spec, is_set}
use criteria_go_adapter_sdk.Spec.Validate.{check_fields, check_secrets, check_examples, validate}

-- No two of the names are equal, and none is among `seen`.
abbrev pub Fresh : List String → List String → Type 0
Fresh seen [] = Unit
Fresh seen (n ∷ ns) = (contains n seen ≡ false) × Fresh (n ∷ seen) ns

abbrev pub field_names : Schema → List String
field_names [] = []
field_names (f ∷ fs) = f.name ∷ field_names fs

abbrev pub secret_names : List Secret → List String
secret_names [] = []
secret_names (s ∷ ss) = s.name ∷ secret_names ss

abbrev pub HasType : SchemaField → Type 0
HasType f = f.type ≢ ""

-- One name, and exactly one of the two forms of the workflow.
abbrev pub IsExample : Example → Type 0
IsExample ex =
    (ex.name ≢ "") × (((ex.hcl ≢ "") × (ex.file ≡ "")) ⊎ ((ex.hcl ≡ "") × (ex.file ≢ "")))

pub record IsSchema (fs : Schema) : Type 0 where
  pub distinct : Distinct (field_names fs)
  pub typed : All HasType fs

pub record IsValid {Any : Type 0} (spec : Spec Any) : Type 0 where
  pub named : spec.name ≢ ""
  pub versioned : spec.version ≢ ""
  pub executes : is_set spec.execute ≡ true
  pub config : IsSchema spec.config_schema
  pub input : IsSchema spec.input_schema
  pub output : IsSchema spec.output_schema
  pub secrets : Distinct (secret_names spec.secrets)
  pub examples : All IsExample spec.examples

abbrev Apart : List String → List String → Type 0
Apart seen ns = All (λ n. contains n seen ≡ false) ns

Apart-cons :
    (n : String) (seen ns : List String)
    → (Apart (n ∷ seen) ns) ↔ (All (λ m. n ≢ m) ns × Apart seen ns)
Apart-cons n seen [] = ((λ _. (tt, tt)), λ _. tt)
Apart-cons n seen (m ∷ ns) =
    let (to, from) = Apart-cons n seen ns in
    (
      (λ h. ground (arith, eq_iff n m, to h.1)),
      (λ h. ground (arith, eq_iff n m, from (h.0.1, h.1.1))),
    )

Fresh-iff : (seen ns : List String) → Fresh seen ns ↔ (Apart seen ns × Distinct ns)
Fresh-iff seen [] = ((λ _. (tt, tt)), λ _. tt)
Fresh-iff seen (n ∷ ns) =
    let (to, from) = Fresh-iff (n ∷ seen) ns in
    let (split, join) = Apart-cons n seen ns in
    (
      (λ h. let (a, d) = to h.1 in let (x, y) = split a in ((h.0, y), (x, d))),
      (λ h. (h.0.0, from (join (h.1.0, h.0.1), h.1.1))),
    )

Apart-nil : (ns : List String) → Apart [] ns
Apart-nil [] = tt
Apart-nil (n ∷ ns) = (refl, Apart-nil ns)

check_fields_iff :
    (spec schema : String) (seen : List String) (fs : Schema)
    → (check_fields spec schema seen fs ≡ ok tt) ↔ (Fresh seen (field_names fs) × All HasType fs)
unfolding check_fields
check_fields_iff spec schema seen [] = ((λ _. (tt, tt)), λ _. refl)
check_fields_iff spec schema seen (f ∷ fs) =
    let (to, from) = check_fields_iff spec schema (f.name ∷ seen) fs in
    (
      (λ h. ground (arith, eq_iff f.type "", to)),
      (λ h. ground (arith, eq_iff f.type "", from (h.0.1, h.1.1))),
    )

check_secrets_iff :
    (spec : String) (seen : List String) (ss : List Secret)
    → (check_secrets spec seen ss ≡ ok tt) ↔ Fresh seen (secret_names ss)
unfolding check_secrets
check_secrets_iff spec seen [] = ((λ _. tt), λ _. refl)
check_secrets_iff spec seen (s ∷ ss) =
    let (to, from) = check_secrets_iff spec (s.name ∷ seen) ss in
    ((λ h. ground (arith, to)), (λ h. ground (arith, from h.1)))

check_examples_iff :
    (spec : String) (i : ℕ) (exs : List Example)
    → (check_examples spec i exs ≡ ok tt) ↔ All IsExample exs
unfolding check_examples
check_examples_iff spec i [] = ((λ _. tt), λ _. refl)
check_examples_iff spec i (ex ∷ exs) =
    let (to, from) = check_examples_iff spec (i + 1) exs in
    (
      (λ h. ground (arith, eq_iff ex.name "", eq_iff ex.hcl "", eq_iff ex.file "", to)),
      (λ h. ground (arith, eq_iff ex.name "", eq_iff ex.hcl "", eq_iff ex.file "", from h.1)),
    )

schema_iff :
    (spec schema : String) (fs : Schema) → (check_fields spec schema [] fs ≡ ok tt) ↔ IsSchema fs
schema_iff spec schema fs =
    let (to, from) = check_fields_iff spec schema [] fs in
    let (split, join) = Fresh-iff [] (field_names fs) in
    (
      (λ h. let (f, t) = to h in record { distinct = (split f).1; typed = t }),
      (λ v. from (join (Apart-nil (field_names fs), v.distinct), v.typed)),
    )

-- The checks in their order, each one's success.
abbrev Passes : {Any : Type 0} → Spec Any → Type 0
Passes spec =
    (spec.name ≢ "")
    × ((spec.version ≢ "")
        × ((is_set spec.execute ≡ true)
            × (IsSchema spec.config_schema
                × (IsSchema spec.input_schema
                    × (IsSchema spec.output_schema
                        × (Distinct (secret_names spec.secrets) × All IsExample spec.examples))))))

module _ {Any : Type 0} (spec : Spec Any) where
  validate-Passes : (validate spec ≡ ok tt) ↔ Passes spec
  unfolding validate
  validate-Passes = then_iff _ _ (not_empty_iff spec.name _) (
      then_iff _ _ (not_empty_iff spec.version _) (
        then_iff _ _ (require_iff _ _) (
          then_iff _ _ (schema_iff spec.name "ConfigSchema" spec.config_schema) (
            then_iff _ _ (schema_iff spec.name "InputSchema" spec.input_schema) (
              then_iff _ _ (schema_iff spec.name "OutputSchema" spec.output_schema)
                (then_iff _ _ secrets_iff (check_examples_iff spec.name 0 spec.examples)))))))
    where
      secrets_iff :
          (check_secrets spec.name [] spec.secrets ≡ ok tt) ↔ Distinct (secret_names spec.secrets)
      secrets_iff =
          let (to, from) = check_secrets_iff spec.name [] spec.secrets in
          let (split, join) = Fresh-iff [] (secret_names spec.secrets) in
          ((λ h. (split (to h)).1), λ d. from (join (Apart-nil (secret_names spec.secrets), d)))

  -- A spec validates exactly when it has a name, a version and an Execute handler, its three schemas
  -- have typed fields with pairwise different names, its secrets have pairwise different names,
  -- and each example has a name and exactly one of inline HCL and a file.
  pub validate_iff : (validate spec ≡ ok tt) ↔ IsValid spec
  validate_iff =
      let (to, from) = validate-Passes in
      (
        (λ h. passes-IsValid (to h)),
        (λ v. from (
          v.named,
          (v.versioned, (v.executes, (v.config, (v.input, (v.output, (v.secrets, v.examples)))))),
        )),
      )
    where
      passes-IsValid : Passes spec → IsValid spec
      passes-IsValid (n, (v, (e, (c, (i, (o, (s, x))))))) = record {
        named = n;
        versioned = v;
        executes = e;
        config = c;
        input = i;
        output = o;
        secrets = s;
        examples = x;
      }
