-- ===== src/Conformance/Loopback/Closed.antt =====
-- That the loopback connection is taken down whatever happens.
use criteria_go_adapter_sdk.Base.{
  Bool, true, false, ◌≡◌, refl, ◌⊎◌, inl, inr, List, [], ◌∷◌, Option, none, some, String, Result,
  ok, err, if◌then◌else◌, ℕ, ◌+◌,
}
use criteria_go_adapter_sdk.Conformance.Loopback.{
  client_failed, listen_failed, LoopbackOp, listens, serves, connects, closes_client, stops_server,
  closes_listener, LoopbackError, with_loopback, uses_client,
}

-- Which of the three are open.
pub record Opened : Type 0 where
  pub listener : Bool
  pub server : Bool
  pub client : Bool

abbrev pub nothing : Opened
nothing = record { listener = false; server = false; client = false }

abbrev only_if : Bool → Opened → Option Opened
only_if true o = some o
only_if false o = none

-- One operation, or `none` where what it needs is not open, or what it opens is already.
abbrev pub apply : LoopbackOp → Opened → Option Opened
apply listens (o) = if o.listener then none else some (record o { listener = true })
apply serves o = if o.server then none else only_if o.listener (record o { server = true })
apply connects o = if o.client then none else only_if o.server (record o { client = true })
apply uses_client o = only_if o.client o
apply closes_client o = only_if o.client (record o { client = false })
apply stops_server o = if o.client then none else only_if o.server (record o { server = false })
apply closes_listener o =
    if o.server then none else only_if o.listener (record o { listener = false })

abbrev pub replay : List LoopbackOp → Option Opened → Option Opened
replay [] o = o
replay (op ∷ ops) none = none
replay (op ∷ ops) (some o) = replay ops (apply op o)

-- How often the body runs.
abbrev pub runs_of_body : List LoopbackOp → ℕ
runs_of_body [] = 0
runs_of_body (uses_client ∷ ops) = runs_of_body ops + 1
runs_of_body (_ ∷ ops) = runs_of_body ops

module _ {ℓ κ} {E : Type ℓ} {A : Type κ} (wrap : LoopbackError → E) where
  -- The body ran once and its answer is returned where both starts succeeded; otherwise it did not run, and
  -- the error is that of the start that failed.
  abbrev pub Answered :
      Option String → Option String → Result E A → List LoopbackOp × Result E A → Type (ℓ ⊔ κ)
  Answered listen new_client body (ops, answer) =
      ((listen ≡ none) × ((new_client ≡ none) × ((runs_of_body ops ≡ 1) × (answer ≡ body))))
      ⊎ (((e : String) × ((listen ≡ some e)
              × ((runs_of_body ops ≡ 0) × (answer ≡ err (wrap (listen_failed e))))))
          ⊎ ((e : String) × ((listen ≡ none)
                × ((new_client ≡ some e)
                    × ((runs_of_body ops ≡ 0) × (answer ≡ err (wrap (client_failed e))))))))

  -- Whether listening fails, the client cannot be made, or the body fails or not: what was opened is closed
  -- in the opposite order, each once, and nothing is left open. Where both starts succeeded the body runs
  -- once, while the client is open, and its answer is returned; otherwise it does not run, and the error
  -- is that of the start that failed.
  pub with_loopback-closes :
      (listen new_client : Option String) (body : Result E A)
      → (replay (with_loopback wrap listen new_client body).0 (some nothing) ≡ some nothing)
        × Answered listen new_client body (with_loopback wrap listen new_client body)
  unfolding with_loopback
  with_loopback-closes none none body = (refl, inl (refl, (refl, (refl, refl))))
  with_loopback-closes none (some e) body = (refl, inr (inr (e, (refl, (refl, (refl, refl))))))
  with_loopback-closes (some e) new_client body = (refl, inr (inl (e, (refl, (refl, refl)))))

  pub with_loopback-ok :
      (listen new_client : Option String) (body : Result E A) (a : A)
      → (with_loopback wrap listen new_client body).1 ≡ ok a
      → body ≡ ok a
  unfolding with_loopback
  with_loopback-ok none none body a h = h
  with_loopback-ok none (some e) body a h = cc
  with_loopback-ok (some e) new_client body a h = cc
