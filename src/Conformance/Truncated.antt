-- ===== src/Conformance/Truncated.antt =====
-- A result that is cut off by a failing send never reads as a whole one.
use criteria_go_adapter_sdk.Base.{
  ℕ, ◌+◌, ◌^◌, ◌<◌, String, ◌≡◌, refl, sym, ap, subst, ◌∙◌, ◌≢◌, inl, inr, true, false, List, [],
  ◌∷◌, ◌++◌, Option, none, some, Result, ok, length, length-append, arith, Bool-cases,
}
use criteria_go_adapter_sdk.Wire.{Bytes, ExecuteResult, ExecuteRequest}
use criteria_go_adapter_sdk.Spec.{Spec, StepResult, ExecuteInput}
use criteria_go_adapter_sdk.Spec.Execute.{
  Framing, send_failed, send_all, after_send, base_result, chunk_size, messages, execute,
  execute_input,
}
use criteria_go_adapter_sdk.Conformance.{join_execute_result_fragments}
use criteria_go_adapter_sdk.Conformance.Framed.{IsDelivery}
use criteria_go_adapter_sdk.Conformance.Accepted.{join_iff, framed-chunked}
use criteria_go_adapter_sdk.Conformance.Delivered.{IsLawful, Delivers, execute-send_all}

send_all-interrupted :
    (step : String) (send : ℕ → Option String) (i : ℕ) (before after : List ExecuteResult)
    (frag : ExecuteResult) (e : String)
    → ((j : ℕ) → j < i + length before → send j ≡ none)
    → send (i + length before) ≡ some e
    → send_all step send i (before ++ frag ∷ after)
      ≡ record { sent = before; answer = some (send_failed step e) }
unfolding send_all
send_all-interrupted step send i [] after frag e h k =
    ap (λ o. after_send step frag o (send_all step send (i + 1) after)) (ap send (omega arith) ∙ k)
send_all-interrupted step send i (f ∷ fs) after frag e h k =
    ap (λ o. after_send step f o (send_all step send (i + 1) (fs ++ frag ∷ after)))
      (h i (omega arith))
    ∙ ap (after_send step f none) (
        send_all-interrupted step send (i + 1) fs after frag e (λ j l. h j (omega arith))
          (ap send (omega arith) ∙ k))

module _ (join_outputs : List ExecuteResult → Result String Bytes) where
  delivery-cut :
      (first m : ExecuteResult) (rest more : List ExecuteResult)
      → IsDelivery first (rest ++ m ∷ more)
      → IsDelivery first rest
      → ⊥
  delivery-cut first m rest more d c =
      ground (arith, d.framed.0, c.framed.0, length-append rest (m ∷ more))

  -- A proper part of a delivery, cut off at the end, joins to nothing.
  join-cut :
      (first m : ExecuteResult) (rest more : List ExecuteResult) (r : ExecuteResult)
      → IsDelivery first (rest ++ m ∷ more)
      → length (first ∷ rest) < 2 ^ 32
      → join_execute_result_fragments join_outputs (first ∷ rest) ≢ ok r
  join-cut first m rest more r d h j = elim ((join_iff join_outputs (first ∷ rest) r h).0 j) [
    | inl (c, _, _) ↦ absurd (framed-chunked join_outputs first (rest ++ m ∷ more) d c)
    | inr (c, _, _) ↦ absurd (delivery-cut first m rest more d c)
  ]

module _ {Any : Type 0} (framing : Framing Any)
    (join_outputs : List ExecuteResult → Result String Bytes)
    (lawful : IsLawful framing join_outputs) where
  messages_chunked :
      (spec : Spec Any) (res : StepResult Any) (outputs : Bytes)
      → framing.needs_chunking outputs (chunk_size framing spec) ≡ true
      → framing.chunk_execute_result_outputs
          (base_result framing res [])
          outputs
          (chunk_size framing spec)
        ≡ messages framing spec res outputs
  unfolding messages
  messages_chunked spec res outputs e = rw e refl

  messages_whole :
      (spec : Spec Any) (res : StepResult Any) (outputs : Bytes)
      → framing.needs_chunking outputs (chunk_size framing spec) ≡ false
      → messages framing spec res outputs ≡ base_result framing res outputs ∷ []
  unfolding messages
  messages_whole spec res outputs e = rw e refl

  -- What is sent before a message of a result does not join.
  messages-cut :
      (spec : Spec Any) (res : StepResult Any) (outputs : Bytes) (before after : List ExecuteResult)
      (frag r : ExecuteResult)
      → messages framing spec res outputs ≡ before ++ frag ∷ after
      → res.outcome ≢ ""
      → join_execute_result_fragments join_outputs before ≢ ok r
  unfolding join_execute_result_fragments
  messages-cut spec res outputs [] after frag r m o j = ground arith
  messages-cut spec res outputs (first ∷ rest) after frag r m o j =
      let size = chunk_size framing spec in
      let base = base_result framing res [] in
      elim (Bool-cases (framing.needs_chunking outputs size)) [
        | inl e ↦
            let q = messages_chunked spec res outputs e ∙ m in
            let d = subst (Delivers base) q (lawful.delivers base outputs size o e) in
            let l = subst (λ fs. length fs < 2 ^ 32) q (lawful.short base outputs size e) in
            join-cut join_outputs first frag rest after r d.0
              (omega (arith, l, length-append rest (frag ∷ after))) j
        | inr e ↦ absurd (
            omega (
              arith,
              ap length (sym (messages_whole spec res outputs e) ∙ m),
              length-append rest (frag ∷ after),
            ))
      ]

  -- When a send fails, whichever it is, the service answers with that send's error under the step's
  -- name, and what it sent before reads as no result at all: a reader of the stream never takes the
  -- beginning of a result's outputs for the whole.
  pub execute-truncated :
      (spec : Spec Any) (req : ExecuteRequest) (send : ℕ → Option String)
      (f : ExecuteInput → Result String (Option (StepResult Any))) (res : StepResult Any)
      (outputs : Bytes) (before after : List ExecuteResult) (frag r : ExecuteResult) (e : String)
      → spec.execute ≡ some f
      → f (execute_input req) ≡ ok (some res)
      → framing.marshal_outputs res.outputs ≡ ok outputs
      → res.outcome ≢ ""
      → messages framing spec res outputs ≡ before ++ frag ∷ after
      → ((j : ℕ) → j < length before → send j ≡ none)
      → send (length before) ≡ some e
      → ((execute framing spec req send).answer ≡ some (send_failed req.step_name e))
        × (join_execute_result_fragments join_outputs (execute framing spec req send).sent ≢ ok r)
  execute-truncated spec req send f res outputs before after frag r e he hf hm ho hb hs hk =
      let d =
        execute-send_all framing join_outputs lawful spec req send f res outputs he hf hm
        ∙ ap (send_all req.step_name send 0) hb
        ∙ send_all-interrupted req.step_name send 0 before after frag e (λ j l. hs j (omega arith))
            (ap send (omega arith) ∙ hk) in
      (
        ap (λ x. x.answer) d,
        (λ j.
            messages-cut spec res outputs before after frag r hb ho
              (ap (λ x. join_execute_result_fragments join_outputs x.sent) (sym d) ∙ j)),
      )
