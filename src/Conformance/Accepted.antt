-- ===== src/Conformance/Accepted.antt =====
-- The result that joinExecuteResultFragments makes of the messages of a stream.
use criteria_go_adapter_sdk.Base.{
  ◌^◌, ◌<◌, String, ◌≡◌, refl, ◌≢◌, ◌↔◌, ◌⊎◌, inl, inr, false, List, [], ◌∷◌, none, Result, ok, err,
  ◌>>=◌, ◌>>◌, wrap_err, length, arith, Bool-cases, Option-cases,
}
use criteria_go_adapter_sdk.Wire.{Bytes, ExecuteResult}
use criteria_go_adapter_sdk.Conformance.{
  JoinError, reassemble, has_chunk, check_delivery, whole, join_chunked,
  join_execute_result_fragments,
}
use criteria_go_adapter_sdk.Conformance.Framed.{IsDelivery, check_delivery_iff}

no_chunk_iff : (f : ExecuteResult) → (has_chunk f ≡ false) ↔ (f.chunk ≡ none)
no_chunk_iff f = elim (Option-cases f.chunk) [
  | inl e ↦ ((λ h. e), λ h. ground arith)
  | inr (c, e) ↦ ((λ h. ground arith), λ h. ground arith)
]

module _ (join_outputs : List ExecuteResult → Result String Bytes) where
  -- A delivery in fragments that reads as r.
  abbrev pub Reassembled : ExecuteResult → List ExecuteResult → ExecuteResult → Type 0
  Reassembled first rest r =
      IsDelivery first rest
      × (join_outputs (first ∷ rest) ≡ ok r.outputs_json)
      × (r ≡ whole first.outcome r.outputs_json)

  -- One whole message, or one delivery in fragments.
  abbrev pub Accepted : List ExecuteResult → ExecuteResult → Type 0
  Accepted [] r = ⊥
  Accepted (first ∷ rest) r =
      ((first.chunk ≡ none) × (rest ≡ []) × (r ≡ whole first.outcome first.outputs_json))
      ⊎ Reassembled first rest r

  reassemble_iff :
      (first : ExecuteResult) (o : Result String Bytes) (r : ExecuteResult)
      → ((do outputs ← wrap_err reassemble o; ok (whole first.outcome outputs)) ≡ ok r)
        ↔ ((o ≡ ok r.outputs_json) × (r ≡ whole first.outcome r.outputs_json))
  reassemble_iff first (ok a) r = ((λ h. (ground arith, ground arith)), λ h. ground arith)
  reassemble_iff first (err e) r = ((λ h. ground arith), λ h. ground arith)

  bind_unit_iff :
      {A : Type 0} (m : Result JoinError (Unit {0})) (k : Result JoinError A) (a : A)
      → ((m >> k) ≡ ok a) ↔ ((m ≡ ok tt) × (k ≡ ok a))
  bind_unit_iff (ok u) k a = ((λ h. (refl, h)), λ h. h.1)
  bind_unit_iff (err e) k a = ((λ h. ground arith), λ h. ground arith)

  join_chunked_iff :
      (first : ExecuteResult) (rest : List ExecuteResult) (r : ExecuteResult)
      → length (first ∷ rest) < 2 ^ 32
      → (join_chunked join_outputs first rest ≡ ok r) ↔ Reassembled first rest r
  join_chunked_iff first rest r h =
      let (to, from) = bind_unit_iff (check_delivery first rest) _ r in
      let (deliver, check) = check_delivery_iff first rest h in
      let (read, unread) = reassemble_iff first (join_outputs (first ∷ rest)) r in
      (
        (λ e. let (c, o) = to e in let (p, q) = read o in (deliver c, p, q)),
        (λ (d, p, q). from (check d, unread (p, q))),
      )

  pub framed-chunked :
      (first : ExecuteResult) (rest : List ExecuteResult)
      → IsDelivery first rest
      → first.chunk ≢ none
  framed-chunked first rest d h = ground (arith, d.framed.0)

  -- For fewer than 2 ^ 32 messages, the join answers r exactly when they are one whole message whose
  -- outcome and outputs r has, or one delivery in fragments: each fragment carries its position, the
  -- number of fragments and the final flag exactly where it is the last, the first has an outcome and
  -- no other has a different one, and r has that outcome and the reassembled outputs.
  pub join_iff :
      (fs : List ExecuteResult) (r : ExecuteResult)
      → length fs < 2 ^ 32
      → (join_execute_result_fragments join_outputs fs ≡ ok r) ↔ Accepted fs r
  unfolding join_execute_result_fragments
  join_iff [] r h = ((λ e. ground arith), λ a. absurd a)
  join_iff (first ∷ []) r h = elim (Bool-cases (has_chunk first)) [
    | inl c ↦
        let (to, from) = join_chunked_iff first [] r h in
        (
          (λ e. inr (to (ground arith))),
          (λ a. elim a [
            | inl (n, q, w) ↦ ground (arith, no_chunk_iff first)
            | inr d ↦ (rw c (from d))
          ]),
        )
    | inr c ↦ (
      (λ e. inl ((no_chunk_iff first).0 c, refl, ground arith)),
      (λ a. elim a [
        | inl (n, q, w) ↦ ground arith
        | inr d ↦ absurd (framed-chunked first [] d.0 ((no_chunk_iff first).0 c))
      ]),
    )
  ]
  join_iff (first ∷ second ∷ rest) r h =
      let (to, from) = join_chunked_iff first (second ∷ rest) r h in
      ((λ e. inr (to e)), (λ a. elim a [ inl (c, e, q) ↦ ground arith | inr d ↦ from d ]))
