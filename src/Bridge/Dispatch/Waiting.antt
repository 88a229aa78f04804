-- ===== src/Bridge/Dispatch/Waiting.antt =====
-- One waiting call's view through the sections of the dispatch loop and of its `closeAll`.
use criteria_go_adapter_sdk.Base.{
  Bool, ℕ, String, ◌≡◌, ◌∙◌, refl, ap, true, false, List, [], ◌∷◌, arith, Bool-cases, inl, inr, ◌⊎◌,
  ◌==◌, subst, ◌||◌, num_eq,
}
use criteria_go_adapter_sdk.Bridge.{Entry, Bridge, pointers, has_pointer}
use criteria_go_adapter_sdk.Bridge.Step.{
  Op, collects, closes, registers, removes, takes_grant, caches, grants, cancels, results,
}
use criteria_go_adapter_sdk.Bridge.View.{
  Status, waiting, closing, released, CallView, Shows, react, react_all,
}
use criteria_go_adapter_sdk.Bridge.View.Places.{waiting_at}
use criteria_go_adapter_sdk.Bridge.Pointers.{lookup-has}
use criteria_go_adapter_sdk.Bridge.Call.Streams.{react_all-released, react_all-append}
use criteria_go_adapter_sdk.Bridge.Dispatch.Routing.{closing_ops}

-- The section takes the call out of the map and leaves its channel open: its own caller does, or
-- another stream's `closeAll`, which then has to close it.
abbrev pub takes : String → Op → Bool
takes id (registers k) = k == id
takes id (removes k) = k == id
takes id (takes_grant k) = k == id
takes id collects = true
takes id _ = false

abbrev pub is_taken : String → List Op → Bool
is_taken id [] = false
is_taken id (op ∷ ops) = takes id op || is_taken id ops

-- A call that the loop may still end, or has ended.
abbrev pub IsServed : CallView → Type 0
IsServed v = (v.status ≡ waiting) ⊎ ((v.status ≡ released) × (v.entry.done ≡ true))

-- A call that a `closeAll` holds, or that was ended.
abbrev IsEnding : CallView → Type 0
IsEnding v = (v.status ≡ closing) ⊎ ((v.status ≡ released) × (v.entry.done ≡ true))

module _ (id : String) (p : ℕ) where
  react-IsServed :
      (op : Op) (v : CallView) → IsServed v → takes id op ≡ false → IsServed (react id p op v)
  unfolding react
  react-IsServed (registers k) v h n = ground arith
  react-IsServed (removes k) v h n = ground arith
  react-IsServed (takes_grant k) v h n = ground arith
  react-IsServed (caches k) v h n = h
  react-IsServed (grants k) v h n = ground arith
  react-IsServed (cancels c) v h n = ground arith
  react-IsServed (results r) v h n = ground arith
  react-IsServed collects v h n = cc
  react-IsServed (closes q) v h n = ground arith

  pub react_all-IsServed :
      (ops : List Op) (v : CallView)
      → IsServed v
      → is_taken id ops ≡ false
      → IsServed (react_all id p ops v)
  unfolding react_all
  react_all-IsServed [] v h n = h
  react_all-IsServed (op ∷ ops) v h n =
      react_all-IsServed ops (react id p op v) (react-IsServed op v h (ground arith)) (ground arith)

  react-IsEnding : (op : Op) (v : CallView) → IsEnding v → IsEnding (react id p op v)
  unfolding react
  react-IsEnding (registers k) v h = ground arith
  react-IsEnding (removes k) v h = ground arith
  react-IsEnding (takes_grant k) v h = ground arith
  react-IsEnding (caches k) v h = h
  react-IsEnding (grants k) v h = ground arith
  react-IsEnding (cancels c) v h = ground arith
  react-IsEnding (results r) v h = ground arith
  react-IsEnding collects v h = ground arith
  react-IsEnding (closes q) v h = ground arith

  react_all-IsEnding : (ops : List Op) (v : CallView) → IsEnding v → IsEnding (react_all id p ops v)
  unfolding react_all
  react_all-IsEnding [] v h = h
  react_all-IsEnding (op ∷ ops) v h =
      react_all-IsEnding ops (react id p op v) (react-IsEnding op v h)

  released-done :
      (ops : List Op) (v : CallView)
      → v.status ≡ released
      → v.entry.done ≡ true
      → (react_all id p ops v).entry.done ≡ true
  released-done ops v s d = by_status v.status v.entry s d
    where
      by_status :
          (st : Status) (e : Entry)
          → st ≡ released
          → e.done ≡ true
          → (react_all id p ops (record { status = st; entry = e })).entry.done ≡ true
      by_status waiting e s d = cc
      by_status closing e s d = cc
      by_status released e s d = ap (λ w. w.entry.done) (react_all-released id p ops e) ∙ d

  closed_by :
      (v : CallView)
      → IsEnding v
      → ((react id p (closes p) v).status ≡ released)
        × ((react id p (closes p) v).entry.done ≡ true)
  unfolding react
  closed_by v h = (ground arith, ground arith)

  closing_ops-ends :
      (env : ℕ → List Op) (ps : List ℕ) (v : CallView)
      → IsEnding v
      → has_pointer p ps ≡ true
      → (react_all id p (closing_ops env ps) v).entry.done ≡ true
  unfolding react_all
  closing_ops-ends env [] v h m = cc
  closing_ops-ends env (q ∷ ps) v h m =
      let w = react_all id p (env q) v in
      let k : IsEnding w = react_all-IsEnding (env q) v h in
      rw (react_all-append id p (env q) (closes q ∷ closing_ops env ps) v)
        (elim (Bool-cases (num_eq p q)) [
          | inl e ↦
              let r = closed_by w k in
              let same : p ≡ q = ground arith in
              subst
                (λ n.
                  (react_all id p (closing_ops env ps) (react id p (closes n) w)).entry.done ≡ true)
                same (released-done (closing_ops env ps) (react id p (closes p) w) r.0 r.1)
          | inr e ↦
              closing_ops-ends env ps (react id p (closes q) w) (react-IsEnding (closes q) w k)
                (ground arith)
        ])

  pub all_ended :
      (env : ℕ → List Op) (b : Bridge) (st : Status) (e : Entry)
      → Shows id p b (record { status = st; entry = e })
      → IsServed (record { status = st; entry = e })
      → (react_all id p
          (collects ∷ closing_ops env (pointers b.pending))
          (record { status = st; entry = e })).entry.done
        ≡ true
  unfolding react_all react
  all_ended env b waiting e s h =
      closing_ops-ends env (pointers b.pending) (record { status = closing; entry = e }) (inl refl)
        (lookup-has p id b.pending (waiting_at id p b e s))
  all_ended env b closing e s h = ground arith
  all_ended env b released e s h =
      rw (react_all-released id p (closing_ops env (pointers b.pending)) e) (ground arith)
