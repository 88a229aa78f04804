-- ===== src/Strict/Patterns.antt =====
-- The regular expressions of internal/strictmanifest/strictmanifest.go.
use criteria_go_adapter_sdk.Base.{◌||◌, num_eq}
use criteria_go_adapter_sdk.Base.Sort.{codes}
use criteria_go_adapter_sdk.Base.Regex.{
  Regex, one, seq, alt, star, plus, literal, prefix_of, between, is_lower, is_digit,
}

-- ^[a-z][a-z0-9-]*$
abbrev pub name_pattern : Regex
name_pattern = seq (one is_lower) (star (one (λ c. is_lower c || is_digit c || num_eq c 45)))

-- ^[a-z][a-z0-9]*$
abbrev pub os_pattern : Regex
os_pattern = seq (one is_lower) (star (one (λ c. is_lower c || is_digit c)))

-- ^[a-z0-9_]+$
abbrev pub arch_pattern : Regex
arch_pattern = plus (one (λ c. is_lower c || is_digit c || num_eq c 95))

-- ^[a-z][a-z_]*$
abbrev pub env_pattern : Regex
env_pattern = seq (one is_lower) (star (one (λ c. is_lower c || num_eq c 95)))

-- ^[a-z][a-z0-9+.-]+://
abbrev pub url_scheme_pattern : Regex
url_scheme_pattern = prefix_of (
    seq (one is_lower) (
      seq (plus (one (λ c. is_lower c || is_digit c || num_eq c 43 || num_eq c 46 || num_eq c 45)))
        (literal (codes "://"))))

-- (0|[1-9][0-9]*)
abbrev pub number_pattern : Regex
number_pattern = alt (one (num_eq 48)) (seq (one (between 49 57)) (star (one is_digit)))

-- ^(0|[1-9][0-9]*)\.(0|[1-9][0-9]*)\.(0|[1-9][0-9]*)$
abbrev pub version_pattern : Regex
version_pattern =
    seq number_pattern
      (seq (one (num_eq 46)) (seq number_pattern (seq (one (num_eq 46)) number_pattern)))

-- ^(string|number|boolean|object|array)$
abbrev pub field_type_pattern : Regex
field_type_pattern = alt (literal (codes "string")) (
    alt (literal (codes "number"))
      (alt (literal (codes "boolean")) (alt (literal (codes "object")) (literal (codes "array")))))
