-- ===== src/Conformance/Tests.antt =====
-- A framer of two fragments, the greeter's result through it, and a small run of the case.
use criteria_go_adapter_sdk.Base.{
  ℕ, ◌≡◌, refl, ◌≢◌, ◌↔◌, inr, Bool, true, false, String, List, [], ◌∷◌, ◌++◌, Option, some, none,
  Result, ok, err, length, ltb, arith, eq_iff, num_eq, if◌then◌else◌, ◌≤◌,
}
use criteria_go_adapter_sdk.Wire.{Bytes, ExecuteRequest, ExecuteResult, result}
use criteria_go_adapter_sdk.Spec.{StepResult}
use criteria_go_adapter_sdk.Spec.Tests.{greeter}
use criteria_go_adapter_sdk.Spec.Execute.{Framing, execute, messages, send_failed}
use criteria_go_adapter_sdk.Conformance.{whole, join_execute_result_fragments}
use criteria_go_adapter_sdk.Conformance.Accepted.{Accepted, join_iff}
use criteria_go_adapter_sdk.Conformance.Delivered.{IsLawful, execute-join}
use criteria_go_adapter_sdk.Conformance.Truncated.{execute-truncated}
use criteria_go_adapter_sdk.Conformance.Loopback.{with_loopback}
use criteria_go_adapter_sdk.Conformance.Loopback.Closed.{
  Answered, replay, nothing, with_loopback-closes,
}
use criteria_go_adapter_sdk.Conformance.Run.{
  ConformanceError, not_started, events, Call, UnderTest, Script, drive_conformance_execute,
  run_concurrent_execute_conformance, verify_distinct_results, with_session,
}
use criteria_go_adapter_sdk.Conformance.Correlated.{Same, run-correlated}

abbrev fragment : ExecuteResult → ℕ → Bool → Bytes → ExecuteResult
fragment base i last outputs = record {
  outcome = base.outcome;
  comment = base.comment;
  outputs_json = outputs;
  chunk = some (record { seq = i; total = 2; final = last });
}

-- Everything longer than the limit goes in two fragments.
abbrev halves : Framing String
halves = record {
  marshal_outputs = λ outputs. ok (1 ∷ 2 ∷ 3 ∷ 4 ∷ 5 ∷ []);
  needs_chunking = λ outputs size. ltb size (length outputs);
  chunk_execute_result_outputs =
      λ base outputs size. fragment base 0 false [] ∷ fragment base 1 true outputs ∷ [];
  default_max_chunk_bytes = 1048576;
}

abbrev join_outputs : List ExecuteResult → Result String Bytes
join_outputs [] = ok []
join_outputs (f ∷ []) = ok f.outputs_json
join_outputs (f ∷ g ∷ []) = ok (f.outputs_json ++ g.outputs_json)
join_outputs (f ∷ g ∷ h ∷ fs) = err "too long"

lawful : IsLawful halves join_outputs
lawful = record {
  delivers = λ base outputs size o n.
      (record { framed = (refl, (refl, tt)); outcome = o; same = (inr refl, tt) }, refl);
  short = λ base outputs size n. omega arith;
  joins = λ base outputs size n. refl;
}

abbrev request : ExecuteRequest
request = record {
  session_id = "s";
  step_name = "hello";
  input = [];
  secret_inputs = [];
  allowed_outcomes = [];
  timeout_ms = 0;
}

abbrev res : StepResult String
res = record { outcome = "success"; comment = ""; outputs = ("greeting", "hello") ∷ [] }

success-some : res.outcome ≢ ""
success-some p = ground (arith, eq_iff "success" "")

execute-join_example :
    ((execute halves greeter request (λ i. none)).answer ≡ none)
    × (join_execute_result_fragments join_outputs (execute halves greeter request (λ i. none)).sent
        ≡ ok (whole "success" (1 ∷ 2 ∷ 3 ∷ 4 ∷ 5 ∷ [])))
execute-join_example =
    execute-join halves join_outputs lawful greeter request (λ i. none) _ res
      (1 ∷ 2 ∷ 3 ∷ 4 ∷ 5 ∷ []) refl refl refl success-some (λ j. refl)

abbrev base : ExecuteResult
base = record { outcome = "success"; comment = ""; outputs_json = []; chunk = none }

-- The second send fails.
abbrev breaks : ℕ → Option String
breaks i = if num_eq i 0 then none else some "broken"

two_messages :
    messages halves greeter res (1 ∷ 2 ∷ 3 ∷ 4 ∷ 5 ∷ [])
    ≡ (fragment base 0 false [] ∷ []) ++ fragment base 1 true (1 ∷ 2 ∷ 3 ∷ 4 ∷ 5 ∷ []) ∷ []
unfolding messages
two_messages = refl

execute-truncated_example :
    ((execute halves greeter request breaks).answer ≡ some (send_failed "hello" "broken"))
    × (join_execute_result_fragments join_outputs (execute halves greeter request breaks).sent
        ≢ ok base)
execute-truncated_example =
    execute-truncated halves join_outputs lawful greeter request breaks _ res
      (1 ∷ 2 ∷ 3 ∷ 4 ∷ 5 ∷ []) (fragment base 0 false [] ∷ []) []
      (fragment base 1 true (1 ∷ 2 ∷ 3 ∷ 4 ∷ 5 ∷ [])) base "broken" refl refl refl success-some
      two_messages (λ j l. ground arith) refl

join_iff_example :
    (join_execute_result_fragments join_outputs
        (fragment base 0 false (1 ∷ []) ∷ fragment base 1 true (2 ∷ []) ∷ [])
      ≡ ok (whole "success" (1 ∷ 2 ∷ [])))
    ↔ Accepted join_outputs
        (fragment base 0 false (1 ∷ []) ∷ fragment base 1 true (2 ∷ []) ∷ [])
        (whole "success" (1 ∷ 2 ∷ []))
join_iff_example = join_iff join_outputs _ _ (omega arith)

-- Call i expects the outputs i.
abbrev script : Script
script i = (some request, some (whole "success" (i ∷ [])))

abbrev call : ℕ → Call
call i = record { request = with_session request; want = whole "success" (i ∷ []) }

abbrev echo : UnderTest String
echo = record {
  listen = none;
  new_client = none;
  open_session = none;
  stream = λ calls i. events (result (whole "success" (i ∷ [])) ∷ []) none;
}

abbrev calls : List Call
calls = call 0 ∷ call 1 ∷ call 2 ∷ call 3 ∷ []

passes : run_concurrent_execute_conformance join_outputs (some echo) (some script) [] ≡ ok tt
unfolding with_loopback run_concurrent_execute_conformance verify_distinct_results
    join_execute_result_fragments
passes = refl

run-correlated_example :
    (3 ≤ 4)
    × ((got : ExecuteResult) × ((drive_conformance_execute join_outputs
              (with_session request)
              (echo.stream calls 1)
            ≡ ok got)
          × (Same got (whole "success" (1 ∷ [])) × ¬ Same got (whole "success" (2 ∷ [])))))
run-correlated_example =
    run-correlated join_outputs echo script [] 4 1 2 calls (call 1) (call 2) passes refl refl refl
      refl (λ p. omega arith)

-- A client that cannot be made.
abbrev body : Result ConformanceError (Unit {0})
body = ok tt

with_loopback-closes_example :
    (replay (with_loopback not_started none (some "no client") body).0 (some nothing)
      ≡ some nothing)
    × Answered not_started none
        (some "no client")
        body
        (with_loopback not_started none (some "no client") body)
with_loopback-closes_example = with_loopback-closes not_started none (some "no client") body
