-- ===== src/Secrets.antt =====
-- adapterhost/secrets.go: the view of the secrets that the host delivered. A nil view is `none`. A Go
-- map as an argument is an association list in the order of its range loop.
pub mod Overlay
pub mod Env
mod Tests
use criteria_go_adapter_sdk.Base.{
  String, ◌<>◌, Bool, true, false, List, [], ◌∷◌, Option, none, some, Result, ok, err, lookup,
  insert, if◌then◌else◌, contains,
}
use criteria_go_adapter_sdk.Base.Copies.{put_all, names_of}
use criteria_go_adapter_sdk.Base.Sort.{sort_strings}

-- `declared` is a set of names.
pub record Secrets : Type 0 where
  pub declared : List String
  pub values : List (String × String)

unfoldable pub new_secrets : List (String × String) → List (String × String) → Secrets
new_secrets declared resolved = record {
  declared = names_of declared;
  values = put_all (λ v. v) [] resolved;
}

unfoldable pub with_step_secrets : Option Secrets → List (String × String) → Secrets
with_step_secrets none step = new_secrets [] step
with_step_secrets (some s) step = record {
  declared = s.declared;
  values = put_all (λ v. v) (put_all (λ v. v) [] s.values) step;
}

unfoldable pub get : Option Secrets → String → Option String
get none name = none
get (some s) name = lookup name s.values

-- The lists that SpawnEnv's loop fills.
pub record Spawn : Type 0 where
  pub undeclared : List String
  pub env : List String

abbrev pub add_env : String → Option String → Spawn → Spawn
add_env name none rest = rest
add_env name (some value) rest = record {
  undeclared = rest.undeclared;
  env = (name <> "=" <> value) ∷ rest.env;
}

abbrev pub spawn_loop : Secrets → List String → Spawn
spawn_loop s [] = record { undeclared = []; env = [] }
spawn_loop s (name ∷ names) =
    let rest = spawn_loop s names in
    if contains name s.declared
    then add_env name (lookup name s.values) rest
    else record { undeclared = name ∷ rest.undeclared; env = rest.env }

-- The error carries the names that its text lists.
abbrev pub spawn_result : List String → List String → Result (List String) (List String)
spawn_result [] env = ok env
spawn_result (n ∷ ns) env = err (sort_strings (n ∷ ns))

abbrev pub or_empty : Option Secrets → Secrets
or_empty none = record { declared = []; values = [] }
or_empty (some s) = s

unfoldable pub spawn_env : Option Secrets → List String → Result (List String) (List String)
spawn_env s names = let r = spawn_loop (or_empty s) names in spawn_result r.undeclared r.env
