-- ===== src/Spec/Bounds/Tests.antt =====
-- A framer that sends a byte at a time.
use criteria_go_adapter_sdk.Base.{
  ℕ, ◌*◌, ◌^◌, ◌≤◌, ◌<◌, ◌≡◌, refl, String, List, [], ◌∷◌, none, ok, All, length, ltb, arith,
}
use criteria_go_adapter_sdk.Base.Int.{pos}
use criteria_go_adapter_sdk.Wire.{Bytes, ExecuteRequest, ExecuteResult}
use criteria_go_adapter_sdk.Spec.{Spec}
use criteria_go_adapter_sdk.Spec.Tests.{greeter}
use criteria_go_adapter_sdk.Spec.Execute.{
  Framing, execute, execute_input, messages, send_all, finish_execute,
}
use criteria_go_adapter_sdk.Spec.Bounds.{Fits, IsSmall, execute_input-timeout, execute-bounded}

abbrev cut : ExecuteResult → Bytes → List ExecuteResult
cut base [] = []
cut base (b ∷ bs) = record base { outputs_json = b ∷ [] } ∷ cut base bs

abbrev bytewise : Framing String
bytewise = record {
  marshal_outputs = λ outputs. ok (1 ∷ 2 ∷ 3 ∷ []);
  needs_chunking = λ outputs size. ltb size (length outputs);
  chunk_execute_result_outputs = λ base outputs size. cut base outputs;
  default_max_chunk_bytes = 1048576;
}

cut-short :
    (base : ExecuteResult) (outputs : Bytes) (size : ℕ)
    → 0 < size
    → All (λ m. length m.outputs_json ≤ size) (cut base outputs)
cut-short base [] size h = tt
cut-short base (b ∷ bs) size h = (omega arith, cut-short base bs size h)

bytewise-Fits : Fits bytewise
bytewise-Fits = record {
  uncut = λ outputs size e. ground arith;
  cut = cut-short;
  default = omega arith;
}

abbrev small : Spec String
small = record greeter { max_chunk_bytes = 2 }

-- The longest timeout there is.
abbrev request : ExecuteRequest
request = record {
  session_id = "s";
  step_name = "hello";
  input = [];
  secret_inputs = [];
  allowed_outcomes = [];
  timeout_ms = 4294967295;
}

in_fragments : length (execute bytewise small request (λ i. none)).sent ≡ 3
unfolding execute finish_execute messages send_all
in_fragments = refl

execute-bounded_example :
    All (IsSmall bytewise small) (execute bytewise small request (λ i. none)).sent
execute-bounded_example = execute-bounded bytewise small bytewise-Fits request (λ i. none)

execute_input-timeout_example :
    ((execute_input request).timeout ≡ pos (4294967295 * 1000000)) × (4294967295 * 1000000 < 2 ^ 63)
execute_input-timeout_example = execute_input-timeout request (omega arith)
