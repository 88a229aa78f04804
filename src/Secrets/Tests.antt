-- ===== src/Secrets/Tests.antt =====
-- Secrets on small maps.
use criteria_go_adapter_sdk.Base.{◌≡◌, refl, [], ◌∷◌, some, none, ok, err, arith, eq_iff}
use criteria_go_adapter_sdk.Secrets.{new_secrets, with_step_secrets, get, spawn_env, or_empty}
use criteria_go_adapter_sdk.Secrets.Overlay.{with_step_secrets_lem}
use criteria_go_adapter_sdk.Base.Copies.{or_else}
use criteria_go_adapter_sdk.Secrets.Env.{Answers, spawn_env-Answers}
use criteria_go_adapter_sdk.Base.{lookup, List, String}

abbrev session : List (String × String)
session = ("A", "1") ∷ ("B", "2") ∷ []

abbrev step : List (String × String)
step = ("B", "3") ∷ []

with_step_secrets_example :
    (get (some (with_step_secrets (some (new_secrets [] session)) step)) "B"
      ≡ or_else (lookup "B" step) (lookup "B" session))
    × ((get (some (with_step_secrets none step)) "B" ≡ lookup "B" step)
        × (get (some (new_secrets [] session)) "B" ≡ lookup "B" session))
with_step_secrets_example =
    with_step_secrets_lem [] session step "B"
      (((λ p. ground (arith, eq_iff "A" "B")), tt), (tt, tt)) (tt, tt)

spawn_env-Answers_example :
    Answers (or_empty none) ("B" ∷ "A" ∷ []) (spawn_env none ("B" ∷ "A" ∷ []))
spawn_env-Answers_example = spawn_env-Answers none ("B" ∷ "A" ∷ [])

spawn_env_sorted : spawn_env none ("B" ∷ "A" ∷ []) ≡ err ("A" ∷ "B" ∷ [])
unfolding spawn_env
spawn_env_sorted = refl

spawn_env_order :
    spawn_env
      (some (new_secrets (("A", "") ∷ ("C", "") ∷ ("B", "") ∷ []) session))
      ("B" ∷ "C" ∷ "A" ∷ [])
    ≡ ok ("B=2" ∷ "A=1" ∷ [])
unfolding spawn_env new_secrets
spawn_env_order = refl
