-- ===== src/Secrets/Overlay.antt =====
-- Which value a name has behind WithStepSecrets.
use criteria_go_adapter_sdk.Base.{String, ◌≡◌, refl, ◌∙◌, ap, List, Option, none, some, [], lookup}
use criteria_go_adapter_sdk.Base.Copies.{
  put_all, DistinctKeys, or_else, map_value, lookup-put_all, put_all-DistinctKeys, lookup-copy,
}
use criteria_go_adapter_sdk.Secrets.{new_secrets, with_step_secrets, get}

map_same : (o : Option String) → map_value (λ v. v) o ≡ o
map_same none = refl
map_same (some v) = refl

copied :
    (n : String) (m : List (String × String))
    → DistinctKeys m
    → lookup n (put_all (λ v. v) [] m) ≡ lookup n m
copied n m d = lookup-copy (λ v. v) n m d ∙ map_same (lookup n m)

-- A step's value wins over the session's, a name that the step does not carry keeps the session's
-- value, and each of the two maps alone reads back unchanged, also when the session's view is nil.
pub with_step_secrets_lem :
    (declared resolved step : List (String × String)) (n : String)
    → DistinctKeys resolved
    → DistinctKeys step
    → (get (some (with_step_secrets (some (new_secrets declared resolved)) step)) n
        ≡ or_else (lookup n step) (lookup n resolved))
      × ((get (some (with_step_secrets none step)) n ≡ lookup n step)
          × (get (some (new_secrets declared resolved)) n ≡ lookup n resolved))
unfolding new_secrets with_step_secrets get
with_step_secrets_lem declared resolved step n dr ds =
    let session = put_all (λ v. v) [] resolved in
    (
      (lookup-put_all (λ v. v) n (put_all (λ v. v) [] session) step ds
          ∙ (ap (λ o. or_else o (lookup n (put_all (λ v. v) [] session))) (map_same (lookup n step))
              ∙ ap (or_else (lookup n step)) (
                  copied n session (put_all-DistinctKeys (λ v. v) [] resolved tt)
                  ∙ copied n resolved dr))),
      (copied n step ds, copied n resolved dr),
    )
