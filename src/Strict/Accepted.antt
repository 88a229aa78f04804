-- ===== src/Strict/Accepted.antt =====
-- What the strict validation accepts.
use criteria_go_adapter_sdk.Base.{
  not_empty_iff, String-cases, ℕ, ◌+◌, String, ◌≡◌, refl, subst, ◌≢◌, ◌↔◌, ◌⊎◌, inl, inr, true,
  List, [], ◌∷◌, Option, none, some, ok, require, require_iff, then_iff, eq_iff, All, arith,
}
use criteria_go_adapter_sdk.Base.Int.{int_eq, ℤ, pos, negsuc}
use criteria_go_adapter_sdk.Base.Regex.{Regex, match_string, matches, derivative, nullable}
use criteria_go_adapter_sdk.Base.Regex.Language.{In, match_string_iff}
use criteria_go_adapter_sdk.Base.Copies.{Entries}
use criteria_go_adapter_sdk.Strict.Patterns.{
  name_pattern, os_pattern, arch_pattern, env_pattern, url_scheme_pattern, version_pattern,
  field_type_pattern,
}
use criteria_go_adapter_sdk.Strict.{
  image_ref_required, Platform, Schema, Secret, ContainerImage, Manifest, StrictError,
  check_platforms, check_types, validate_schema, check_secrets, check_environments, check_image,
  in_range, is_some, validate,
}

abbrev pub IsPlatform : Platform → Type 0
IsPlatform p = In os_pattern p.os × In arch_pattern p.arch

-- Each field has one of the five types; a schema that is not there has no field.
abbrev pub Typed : Option Schema → Type 0
Typed none = Unit
Typed (some s) = Entries (λ name f. In field_type_pattern f.type) s

abbrev pub IsEnvironment : String → Type 0
IsEnvironment env = (env ≡ "*") ⊎ In env_pattern env

abbrev pub HasRef : Option ContainerImage → Type 0
HasRef none = Unit
HasRef (some image) = image.ref ≢ ""

pub record IsPublishable (m : Manifest) : Type 0 where
  pub schema_version : m.schema_version ≡ pos 1
  pub name : In name_pattern m.name
  pub version : In version_pattern m.version
  pub source_url : In url_scheme_pattern m.source_url
  pub protocol_version : m.sdk_protocol_version ≡ pos 2
  pub some_platform : m.platforms ≢ []
  pub platforms : All IsPlatform m.platforms
  pub config : Typed m.config_schema
  pub input : Typed m.input_schema
  pub output : Typed m.output_schema
  pub secrets : All (λ s. s.name ≢ "") m.secrets
  pub environments : All IsEnvironment m.compatible_environments
  pub image : HasRef m.container_image

matched_iff :
    (r : Regex) (s : String) (e : StrictError) → (require (match_string r s) e ≡ ok tt) ↔ In r s
matched_iff r s e =
    let (to, from) = require_iff (match_string r s) e in
    let (into, out) = match_string_iff r s in ((λ h. into (to h)), λ h. from (out h))

check_platforms_iff : (ps : List Platform) → (check_platforms ps ≡ ok tt) ↔ All IsPlatform ps
check_platforms_iff [] = ((λ h. tt), λ h. refl)
check_platforms_iff (p ∷ ps) =
    let (to, from) = check_platforms_iff ps in
    let os = match_string_iff os_pattern p.os in
    let arch = match_string_iff arch_pattern p.arch in
    (
      (λ h. ((os.0 (ground arith), arch.0 (ground arith)), to (ground arith))),
      (λ h. ground (arith, os.1 h.0.0, arch.1 h.0.1, from h.1)),
    )

check_types_iff :
    (key : String) (s : Schema)
    → (check_types key s ≡ ok tt) ↔ Entries (λ name f. In field_type_pattern f.type) s
check_types_iff key [] = ((λ h. tt), λ h. refl)
check_types_iff key ((name, f) ∷ fs) =
    let (to, from) = check_types_iff key fs in
    let (into, out) = match_string_iff field_type_pattern f.type in
    ((λ h. (into (ground arith), to (ground arith))), λ h. ground (arith, out h.0, from h.1))

validate_schema_iff : (key : String) (s : Option Schema) → (validate_schema key s ≡ ok tt) ↔ Typed s
validate_schema_iff key none = ((λ h. tt), λ h. refl)
validate_schema_iff key (some s) = check_types_iff key s

check_secrets_iff :
    (i : ℕ) (ss : List Secret) → (check_secrets i ss ≡ ok tt) ↔ All (λ s. s.name ≢ "") ss
check_secrets_iff i [] = ((λ h. tt), λ h. refl)
check_secrets_iff i (s ∷ ss) =
    let (to, from) = check_secrets_iff (i + 1) ss in
    ((λ h. ground (arith, eq_iff s.name "", to)), λ h. ground (arith, eq_iff s.name "", from h.1))

check_environments_iff :
    (envs : List String) → (check_environments envs ≡ ok tt) ↔ All IsEnvironment envs
check_environments_iff [] = ((λ h. tt), λ h. refl)
check_environments_iff (env ∷ envs) =
    let (to, from) = check_environments_iff envs in
    let (into, out) = match_string_iff env_pattern env in
    elim (String-cases env "*") [
      | inl (e, p) ↦ ((λ h. (inl p, to (ground arith))), λ h. ground (arith, from h.1))
      | inr (e, p) ↦ (
        (λ h. (inr (into (ground arith)), to (ground arith))),
        (λ h. elim h.0 [ inl q ↦ absurd (p q) | inr q ↦ ground (arith, out q, from h.1) ]),
      )
    ]

check_image_iff : (image : Option ContainerImage) → (check_image image ≡ ok tt) ↔ HasRef image
check_image_iff none = ((λ h. tt), λ h. refl)
check_image_iff (some image) = not_empty_iff image.ref image_ref_required

in_range_iff : (n : ℕ) (v : ℤ) → (in_range (pos n) (pos n) v ≡ true) ↔ (v ≡ pos n)
in_range_iff n (pos m) = ((λ h. ground arith), λ h. ground arith)
in_range_iff n (negsuc m) = ((λ h. ground arith), λ h. ground arith)

int_eq_iff :
    (n : ℕ) (v : ℤ) (e : StrictError) → (require (int_eq v (pos n)) e ≡ ok tt) ↔ (v ≡ pos n)
int_eq_iff n (pos m) e = ((λ h. ground arith), λ h. ground arith)
int_eq_iff n (negsuc m) e = ((λ h. ground arith), λ h. ground arith)

some_platform_iff :
    (ps : List Platform) (e : StrictError) → (require (is_some ps) e ≡ ok tt) ↔ (ps ≢ [])
some_platform_iff [] e = ((λ h. ground arith), λ h. absurd (h refl))
some_platform_iff (p ∷ ps) e = ((λ h q. ground arith), λ h. refl)

range_iff :
    (n : ℕ) (v : ℤ) (e : StrictError)
    → (require (in_range (pos n) (pos n) v) e ≡ ok tt) ↔ (v ≡ pos n)
range_iff n v e =
    let (to, from) = require_iff (in_range (pos n) (pos n) v) e in
    let (into, out) = in_range_iff n v in ((λ h. into (to h)), λ h. from (out h))

no_scheme : In url_scheme_pattern "" → ⊥
unfolding match_string matches derivative nullable
no_scheme h = ground (arith, (match_string_iff url_scheme_pattern "").1 h)

url-not_empty : (s : String) → In url_scheme_pattern s → s ≢ ""
url-not_empty s h p = no_scheme (subst (In url_scheme_pattern) p h)

module _ (m : Manifest) where
  -- What the checks want, in their order.
  abbrev Passes : Type 0
  Passes =
      (m.schema_version ≡ pos 1)
      × (In name_pattern m.name
          × (In version_pattern m.version
              × ((m.source_url ≢ "")
                  × (In url_scheme_pattern m.source_url
                      × ((m.sdk_protocol_version ≡ pos 2)
                          × ((m.platforms ≢ [])
                              × (All IsPlatform m.platforms
                                  × (Typed m.config_schema
                                      × (Typed m.input_schema
                                          × (Typed m.output_schema
                                              × (All (λ s. s.name ≢ "") m.secrets
                                                  × (All IsEnvironment m.compatible_environments
                                                      × HasRef m.container_image))))))))))))

  validate-Passes : (validate m ≡ ok tt) ↔ Passes
  unfolding validate
  validate-Passes = then_iff _ _ (range_iff 1 m.schema_version _) (
      then_iff _ _ (matched_iff name_pattern m.name _) (
        then_iff _ _ (matched_iff version_pattern m.version _) (
          then_iff _ _ (not_empty_iff m.source_url _) (
            then_iff _ _ (matched_iff url_scheme_pattern m.source_url _) (
              then_iff _ _ (int_eq_iff 2 m.sdk_protocol_version _) (
                then_iff _ _ (some_platform_iff m.platforms _) (
                  then_iff _ _ (check_platforms_iff m.platforms) (
                    then_iff _ _ (validate_schema_iff "config_schema" m.config_schema) (
                      then_iff _ _ (validate_schema_iff "input_schema" m.input_schema) (
                        then_iff _ _ (validate_schema_iff "output_schema" m.output_schema) (
                          then_iff _ _ (check_secrets_iff 0 m.secrets) (
                            then_iff _ _ (check_environments_iff m.compatible_environments)
                              (check_image_iff m.container_image)))))))))))))

  -- The strict rules accept a manifest exactly when its schema version is 1 and its protocol version 2,
  -- its name, version and source URL are in their patterns, it has a platform, each platform's os and
  -- arch, each field's type and each environment other than * are in theirs, each secret has a name,
  -- and a container image has a reference.
  pub validate-IsPublishable : (validate m ≡ ok tt) ↔ IsPublishable m
  validate-IsPublishable = (
    (λ h. passed (validate-Passes.0 h)),
    (λ p. validate-Passes.1 (
      p.schema_version,
      (
        p.name,
        (
          p.version,
          (
            url-not_empty m.source_url p.source_url,
            (
              p.source_url,
              (
                p.protocol_version,
                (
                  p.some_platform,
                  (
                    p.platforms,
                    (p.config, (p.input, (p.output, (p.secrets, (p.environments, p.image))))),
                  ),
                ),
              ),
            ),
          ),
        ),
      ),
    )),
  )
    where
      passed : Passes → IsPublishable m
      passed (v, (n, (w, (_, (u, (q, (s, (ps, (c, (i, (o, (ss, (es, im))))))))))))) = record {
        schema_version = v;
        name = n;
        version = w;
        source_url = u;
        protocol_version = q;
        some_platform = s;
        platforms = ps;
        config = c;
        input = i;
        output = o;
        secrets = ss;
        environments = es;
        image = im;
      }
