-- ===== src/Conformance/Delivered.antt =====
-- From a spec's Execute handler (adapterhost/spec.go) to the result that is read from its stream
-- (adapterhost/conformance.go).
use criteria_go_adapter_sdk.Base.{
  ℕ, ◌+◌, ◌^◌, ◌<◌, String, ◌≡◌, refl, sym, ap, ◌∙◌, ◌≢◌, inl, inr, true, List, [], ◌∷◌, Option,
  none, some, Result, ok, length, arith, Bool-cases,
}
use criteria_go_adapter_sdk.Wire.{Bytes, ExecuteResult, ExecuteRequest}
use criteria_go_adapter_sdk.Spec.{Spec, StepResult, ExecuteInput}
use criteria_go_adapter_sdk.Spec.Execute.{
  Framing, send_all, base_result, chunk_size, messages, deliver, run_execute, finish_execute,
  execute, execute_input,
}
use criteria_go_adapter_sdk.Conformance.{whole, join_execute_result_fragments}
use criteria_go_adapter_sdk.Conformance.Framed.{IsDelivery}
use criteria_go_adapter_sdk.Conformance.Accepted.{Accepted, join_iff}

abbrev pub NonEmpty : List ExecuteResult → Type 0
NonEmpty [] = ⊥
NonEmpty (f ∷ fs) = Unit

abbrev pub Delivers : ExecuteResult → List ExecuteResult → Type 0
Delivers base [] = ⊥
Delivers base (first ∷ rest) = IsDelivery first rest × (first.outcome ≡ base.outcome)

-- What package v2 documents of its framer: outputs that need chunking are cut into one delivery,
-- fewer than 2 ^ 32 fragments, with the result's outcome in the first, and joining them gives the
-- outputs back.
pub record IsLawful {Any : Type 0} (framing : Framing Any)
    (join_outputs : List ExecuteResult → Result String Bytes) : Type 0 where
  pub delivers :
      (base : ExecuteResult) (outputs : Bytes) (size : ℕ)
      → base.outcome ≢ ""
      → framing.needs_chunking outputs size ≡ true
      → Delivers base (framing.chunk_execute_result_outputs base outputs size)
  pub short :
      (base : ExecuteResult) (outputs : Bytes) (size : ℕ)
      → framing.needs_chunking outputs size ≡ true
      → length (framing.chunk_execute_result_outputs base outputs size) < 2 ^ 32
  pub joins :
      (base : ExecuteResult) (outputs : Bytes) (size : ℕ)
      → framing.needs_chunking outputs size ≡ true
      → join_outputs (framing.chunk_execute_result_outputs base outputs size) ≡ ok outputs

send_all-healthy :
    (step : String) (send : ℕ → Option String) (i : ℕ) (fs : List ExecuteResult)
    → ((j : ℕ) → send j ≡ none)
    → send_all step send i fs ≡ record { sent = fs; answer = none }
unfolding send_all
send_all-healthy step send i [] h = refl
send_all-healthy step send i (f ∷ fs) h =
    rw (h i, send_all, send_all-healthy step send (i + 1) fs h) refl

module _ {Any : Type 0} (framing : Framing Any)
    (join_outputs : List ExecuteResult → Result String Bytes)
    (lawful : IsLawful framing join_outputs) where
  Delivers-Accepted :
      (base : ExecuteResult) (outputs : Bytes) (fs : List ExecuteResult)
      → Delivers base fs
      → join_outputs fs ≡ ok outputs
      → Accepted join_outputs fs (whole base.outcome outputs)
  Delivers-Accepted base outputs [] d j = d
  Delivers-Accepted base outputs (first ∷ rest) (d, e) j =
      inr (d, j, ap (λ o. whole o outputs) (sym e))

  messages-join :
      (spec : Spec Any) (res : StepResult Any) (outputs : Bytes)
      → res.outcome ≢ ""
      → join_execute_result_fragments join_outputs (messages framing spec res outputs)
        ≡ ok (whole res.outcome outputs)
  unfolding messages
  messages-join spec res outputs o =
      let size = chunk_size framing spec in
      let base = base_result framing res [] in
      let frags = framing.chunk_execute_result_outputs base outputs size in
      elim (Bool-cases (framing.needs_chunking outputs size)) [
        | inl e ↦ rw e (
            (join_iff join_outputs frags (whole res.outcome outputs)
                (lawful.short base outputs size e)).1
              (Delivers-Accepted base outputs frags (lawful.delivers base outputs size o e)
                (lawful.joins base outputs size e)))
        | inr e ↦ rw e (
            (join_iff join_outputs (base_result framing res outputs ∷ [])
                (whole res.outcome outputs) (omega arith)).1
              (inl (refl, refl, refl)))
      ]

  pub execute-send_all :
      (spec : Spec Any) (req : ExecuteRequest) (send : ℕ → Option String)
      (f : ExecuteInput → Result String (Option (StepResult Any))) (res : StepResult Any)
      (outputs : Bytes)
      → spec.execute ≡ some f
      → f (execute_input req) ≡ ok (some res)
      → framing.marshal_outputs res.outputs ≡ ok outputs
      → execute framing spec req send
        ≡ send_all req.step_name send 0 (messages framing spec res outputs)
  unfolding execute finish_execute
  execute-send_all spec req send f res outputs he hf hm =
      ap (run_execute framing spec req send) he
      ∙ ap (finish_execute framing spec req.step_name send) hf
      ∙ ap (deliver framing spec req.step_name res send) hm

  -- When Execute's handler returns a result with an outcome, its outputs encode, and every send goes
  -- through, the service answers no error, and what it sent joins to one result with the handler's
  -- outcome and the encoded outputs, whether they were cut into fragments or not.
  pub execute-join :
      (spec : Spec Any) (req : ExecuteRequest) (send : ℕ → Option String)
      (f : ExecuteInput → Result String (Option (StepResult Any))) (res : StepResult Any)
      (outputs : Bytes)
      → spec.execute ≡ some f
      → f (execute_input req) ≡ ok (some res)
      → framing.marshal_outputs res.outputs ≡ ok outputs
      → res.outcome ≢ ""
      → ((j : ℕ) → send j ≡ none)
      → ((execute framing spec req send).answer ≡ none)
        × (join_execute_result_fragments join_outputs (execute framing spec req send).sent
            ≡ ok (whole res.outcome outputs))
  execute-join spec req send f res outputs he hf hm ho hs =
      let d =
        execute-send_all spec req send f res outputs he hf hm
        ∙ send_all-healthy req.step_name send 0 (messages framing spec res outputs) hs in
      (
        ap (λ x. x.answer) d,
        (ap (λ x. join_execute_result_fragments join_outputs x.sent) d
            ∙ messages-join spec res outputs ho),
      )
