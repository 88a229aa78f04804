-- ===== src/Spec/Bounds.antt =====
-- Bounds of specService.Execute: the timeout in nanoseconds, and the size of what is sent.
mod Tests
use criteria_go_adapter_sdk.Base.{
  All-map, suc, ℕ, ◌*◌, ◌+◌, ◌^◌, ◌≤◌, ◌<◌, ◌≡◌, refl, ◌∙◌, sym, String, true, false, List, [], ◌∷◌,
  Option, none, some, Result, ok, err, All, length, num_eq, if◌then◌else◌, Bool-cases, Result-cases,
  Option-cases, inl, inr, arith, ◌⊎◌,
}
use criteria_go_adapter_sdk.Base.Int.{int64, ℤ, pos}
use criteria_go_adapter_sdk.Wire.{Bytes, ExecuteRequest, ExecuteResult}
use criteria_go_adapter_sdk.Spec.{Spec, ExecuteInput, StepResult}
use criteria_go_adapter_sdk.Spec.Execute.{
  Framing, Delivery, timeout_of, millisecond, execute_input, after_send, send_all, chunk_size,
  base_result, messages, deliver, finish_execute, run_execute, execute,
}

-- A timeout of a uint32 in milliseconds reaches the handler exactly, in nanoseconds: the product does not
-- overflow an int64.
pub execute_input-timeout :
    (req : ExecuteRequest)
    → req.timeout_ms < 2 ^ 32
    → ((execute_input req).timeout ≡ pos (req.timeout_ms * 1000000))
      × (req.timeout_ms * 1000000 < 2 ^ 63)
unfolding timeout_of
execute_input-timeout req h = (ground arith, omega arith)

-- Package v2 on sizes: outputs that need no chunking are within the limit, and so is each fragment.
pub record Fits {Any : Type 0} (framing : Framing Any) : Type 0 where
  pub uncut :
      (outputs : Bytes) (size : ℕ)
      → framing.needs_chunking outputs size ≡ false
      → length outputs ≤ size
  pub cut :
      (base : ExecuteResult) (outputs : Bytes) (size : ℕ)
      → 0 < size
      → All
          (λ m. length m.outputs_json ≤ size)
          (framing.chunk_execute_result_outputs base outputs size)
  pub default : 0 < framing.default_max_chunk_bytes

module _ {Any : Type 0} (framing : Framing Any) (spec : Spec Any) where
  -- A message within the spec's limit, which is package v2's where the spec sets none.
  abbrev pub IsSmall : ExecuteResult → Type 0
  IsSmall m =
      ((spec.max_chunk_bytes ≡ 0) × (length m.outputs_json ≤ framing.default_max_chunk_bytes))
      ⊎ ((0 < spec.max_chunk_bytes) × (length m.outputs_json ≤ spec.max_chunk_bytes))

module _ {Any : Type 0} (framing : Framing Any) (spec : Spec Any) (fits : Fits framing) where
  send_all-IsSmall :
      (step : String) (send : ℕ → Option String) (i : ℕ) (ms : List ExecuteResult)
      → All (IsSmall framing spec) ms
      → All (IsSmall framing spec) (send_all step send i ms).sent
  unfolding send_all
  send_all-IsSmall step send i [] h = tt
  send_all-IsSmall step send i (m ∷ ms) h = elim (Option-cases (send i)) [
    | inl e ↦ rw e (h.0, send_all-IsSmall step send (i + 1) ms h.1)
    | inr (x, e) ↦ rw e tt
  ]

  chunk_size-pos : 0 < chunk_size framing spec
  chunk_size-pos = elim (Bool-cases (num_eq spec.max_chunk_bytes 0)) [
    | inl e ↦ ground (arith, fits.default)
    | inr e ↦ ground arith
  ]

  small_lem :
      (m : ExecuteResult) → length m.outputs_json ≤ chunk_size framing spec → IsSmall framing spec m
  small_lem m h = elim (Bool-cases (num_eq spec.max_chunk_bytes 0)) [
    | inl e ↦ inl (ground arith, ground arith)
    | inr e ↦ inr (ground arith, ground arith)
  ]

  messages-IsSmall :
      (res : StepResult Any) (outputs : Bytes)
      → All (IsSmall framing spec) (messages framing spec res outputs)
  unfolding messages
  messages-IsSmall res outputs =
      elim (Bool-cases (framing.needs_chunking outputs (chunk_size framing spec))) [
        | inl e ↦ rw e (
            All-map _ (λ m h. small_lem m h)
              (fits.cut (base_result framing res []) outputs (chunk_size framing spec)
                chunk_size-pos))
        | inr e ↦ rw e (
          small_lem (base_result framing res outputs)
              (fits.uncut outputs (chunk_size framing spec) e),
          tt,
        )
      ]

  finish_execute-IsSmall :
      (step : String) (send : ℕ → Option String) (r : Result String (Option (StepResult Any)))
      → All (IsSmall framing spec) (finish_execute framing spec step send r).sent
  unfolding finish_execute
  finish_execute-IsSmall step send (err e) = tt
  finish_execute-IsSmall step send (ok none) = tt
  finish_execute-IsSmall step send (ok (some res)) =
      elim (Result-cases (framing.marshal_outputs res.outputs)) [
        | inl (b, e) ↦
            rw e
              (send_all-IsSmall step send 0 (messages framing spec res b) (messages-IsSmall res b))
        | inr (b, e) ↦ rw e tt
      ]

  run_execute-IsSmall :
      (req : ExecuteRequest) (send : ℕ → Option String)
      (f : Option (ExecuteInput → Result String (Option (StepResult Any))))
      → All (IsSmall framing spec) (run_execute framing spec req send f).sent
  run_execute-IsSmall req send none = tt
  run_execute-IsSmall req send (some f) =
      finish_execute-IsSmall req.step_name send (f (execute_input req))

  -- Whatever the handler returns and whichever sends fail, each result message that Execute sends carries at
  -- most the spec's MaxChunkBytes of outputs, or package v2's default where that is 0, provided that
  -- the framer keeps to the limit that it is given.
  pub execute-bounded :
      (req : ExecuteRequest) (send : ℕ → Option String)
      → All (IsSmall framing spec) (execute framing spec req send).sent
  unfolding execute
  execute-bounded req send = run_execute-IsSmall req send spec.execute
