-- ===== src/Spec/Execute.antt =====
-- adapterhost/spec.go, specService.Execute. Encoding outputs and cutting them into fragments is
-- criteria-adapter-proto's, so it comes as a record of functions. A sender is a state with the send's
-- outcome in each state.
use criteria_go_adapter_sdk.Base.{
  ℕ, ◌+◌, ◌*◌, String, Bool, List, [], ◌∷◌, Option, none, some, Result, ok, err, num_eq,
  if◌then◌else◌,
}
use criteria_go_adapter_sdk.Base.Int.{int64, ℤ}
use criteria_go_adapter_sdk.Wire.{Bytes, ExecuteRequest, ExecuteResult}
use criteria_go_adapter_sdk.Spec.{Spec, ExecuteInput, StepResult}

-- MarshalOutputs, NeedsChunking, ChunkExecuteResultOutputs and DefaultMaxChunkBytes of package v2.
pub record Framing (Any : Type 0) : Type 0 where
  pub marshal_outputs : List (String × Any) → Result String Bytes
  pub needs_chunking : Bytes → ℕ → Bool
  pub chunk_execute_result_outputs : ExecuteResult → Bytes → ℕ → List ExecuteResult
  pub default_max_chunk_bytes : ℕ

-- What the service fails with; the step's name stands in all but the author's own error.
pub data ExecuteError : Type 0 where
  failed : String → ExecuteError
  no_result : String → ExecuteError
  outputs_failed send_failed : String → String → ExecuteError
  -- Execute of a spec that has none, which validation excludes: a nil function is called.
  nil_call : ExecuteError

-- The result events that reached the stream, and the service's answer.
pub record Delivery : Type 0 where
  pub sent : List ExecuteResult
  pub answer : Option ExecuteError

abbrev pub millisecond : ℕ
millisecond = 1000000

-- `time.Duration(ms) * time.Millisecond` on a uint32: the product is below 2 ^ 63, and is kept wrapped.
unfoldable pub timeout_of : ℕ → ℤ
timeout_of ms = int64 (ms * millisecond)

abbrev pub execute_input : ExecuteRequest → ExecuteInput
execute_input req = record {
  session_id = req.session_id;
  step_name = req.step_name;
  input = req.input;
  secrets = req.secret_inputs;
  allowed_outcomes = req.allowed_outcomes;
  timeout = timeout_of req.timeout_ms;
}

abbrev pub nothing_sent : ExecuteError → Delivery
nothing_sent e = record { sent = []; answer = some e }

-- A message that does not go through ends the loop.
abbrev pub after_send : String → ExecuteResult → Option String → Delivery → Delivery
after_send step frag (some e) rest = nothing_sent (send_failed step e)
after_send step frag none rest = record { sent = frag ∷ rest.sent; answer = rest.answer }

unfoldable pub send_all : String → (ℕ → Option String) → ℕ → List ExecuteResult → Delivery
send_all step send i [] = record { sent = []; answer = none }
send_all step send i (frag ∷ frags) =
    let rest = send_all step send (i + 1) frags in after_send step frag (send i) rest

module _ {Any : Type 0} (framing : Framing Any) where
  abbrev pub chunk_size : Spec Any → ℕ
  chunk_size spec =
      if num_eq spec.max_chunk_bytes 0
      then framing.default_max_chunk_bytes
      else spec.max_chunk_bytes

  abbrev pub base_result : StepResult Any → Bytes → ExecuteResult
  base_result res outputs = record {
    outcome = res.outcome;
    comment = res.comment;
    outputs_json = outputs;
    chunk = none;
  }

  -- The messages of one result.
  unfoldable pub messages : Spec Any → StepResult Any → Bytes → List ExecuteResult
  messages spec res outputs =
      if framing.needs_chunking outputs (chunk_size spec)
      then framing.chunk_execute_result_outputs (base_result res []) outputs (chunk_size spec)
      else base_result res outputs ∷ []

  abbrev pub deliver :
      Spec Any → String → StepResult Any → (ℕ → Option String) → Result String Bytes → Delivery
  deliver spec step res send (err e) = nothing_sent (outputs_failed step e)
  deliver spec step res send (ok outputs) = send_all step send 0 (messages spec res outputs)

  unfoldable pub finish_execute :
      Spec Any → String → (ℕ → Option String) → Result String (Option (StepResult Any)) → Delivery
  finish_execute spec step send (err e) = nothing_sent (failed e)
  finish_execute spec step send (ok none) = nothing_sent (no_result step)
  finish_execute spec step send (ok (some res)) =
      deliver spec step res send (framing.marshal_outputs res.outputs)

  abbrev pub run_execute :
      Spec Any
      → ExecuteRequest
      → (ℕ → Option String)
      → Option (ExecuteInput → Result String (Option (StepResult Any)))
      → Delivery
  run_execute spec req send none = nothing_sent nil_call
  run_execute spec req send (some f) =
      finish_execute spec req.step_name send (f (execute_input req))

  -- `send i` is the outcome of the i-th send.
  unfoldable pub execute : Spec Any → ExecuteRequest → (ℕ → Option String) → Delivery
  execute spec req send = run_execute spec req send spec.execute
