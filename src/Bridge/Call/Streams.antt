-- ===== src/Bridge/Call/Streams.antt =====
-- A waiting call's automaton over a stretch of the other goroutines' work that does not end it.
use criteria_go_adapter_sdk.Base.{
  ℕ, String, ◌≡◌, ◌∙◌, refl, ◌≢◌, Bool, true, false, ◌||◌, List, [], ◌∷◌, ◌++◌, arith, All, ◌==◌,
  if◌then◌else◌, String-cases, Bool-cases, inl, inr, eq_iff,
}
use mathlib.Core.List.{append_assoc, append-nil}
use criteria_go_adapter_sdk.Wire.{ToolCallResult}
use criteria_go_adapter_sdk.Bridge.{Entry, is_terminal, new_entry}
use criteria_go_adapter_sdk.Bridge.Step.{
  Op, registers, removes, takes_grant, caches, grants, cancels, results, collects, closes,
}
use criteria_go_adapter_sdk.Bridge.View.{waiting, closing, released, CallView, react, react_all}

-- No stream ends, and nothing that carries `id` is a denial, a last fragment or a removal.
abbrev pub KeepsWaiting : String → Op → Type 0
KeepsWaiting id (registers k) = k ≢ id
KeepsWaiting id (removes k) = k ≢ id
KeepsWaiting id (takes_grant k) = k ≢ id
KeepsWaiting id (caches sid) = Unit
KeepsWaiting id (grants k) = Unit
KeepsWaiting id (cancels c) = c.request_id ≢ id
KeepsWaiting id (results r) = r.request_id ≡ id → is_terminal r ≡ false
KeepsWaiting id collects = ⊥
KeepsWaiting id (closes q) = Unit

-- The fragments for `id`, in their order of arrival.
abbrev pub fragments_for : String → List Op → List ToolCallResult
fragments_for id [] = []
fragments_for id (results r ∷ ops) =
    if r.request_id == id then r ∷ fragments_for id ops else fragments_for id ops
fragments_for id (op ∷ ops) = fragments_for id ops

abbrev pub grants_for : String → List Op → Bool
grants_for id [] = false
grants_for id (grants k ∷ ops) = k == id || grants_for id ops
grants_for id (op ∷ ops) = grants_for id ops

-- A waiting entry that has seen these.
abbrev pub waiting_view : Bool → List ToolCallResult → CallView
waiting_view grant fs = record {
  status = waiting;
  entry = record new_entry { grant = grant; fragments = fs };
}

module _ (id : String) (p : ℕ) where
  -- While it waits a call gathers its fragments, in order, and its grant, and nothing of the others.
  pub react_all-waiting :
      (ops : List Op) (grant : Bool) (fs : List ToolCallResult)
      → All (KeepsWaiting id) ops
      → react_all id p ops (waiting_view grant fs)
        ≡ waiting_view (grant || grants_for id ops) (fs ++ fragments_for id ops)
  unfolding react_all react
  react_all-waiting [] grant fs k = ground (arith, append-nil fs)
  react_all-waiting (registers j ∷ ops) grant fs k =
      ground (arith, eq_iff j id, react_all-waiting ops grant fs k.1)
  react_all-waiting (removes j ∷ ops) grant fs k =
      ground (arith, eq_iff j id, react_all-waiting ops grant fs k.1)
  react_all-waiting (takes_grant j ∷ ops) grant fs k =
      ground (arith, eq_iff j id, react_all-waiting ops grant fs k.1)
  react_all-waiting (caches j ∷ ops) grant fs k = react_all-waiting ops grant fs k.1
  react_all-waiting (grants j ∷ ops) grant fs k = elim (Bool-cases (j == id)) [
    | inl t ↦ rw t (ground (arith, react_all-waiting ops true fs k.1))
    | inr t ↦ rw t (react_all-waiting ops grant fs k.1)
  ]
  react_all-waiting (cancels c ∷ ops) grant fs k =
      ground (arith, eq_iff c.request_id id, react_all-waiting ops grant fs k.1)
  react_all-waiting (results r ∷ ops) grant fs k = elim (String-cases r.request_id id) [
    | inl (t, same) ↦
        rw (t, k.0 same) (react_all-waiting ops grant (fs ++ r ∷ []) k.1 ∙ rw append_assoc refl)
    | inr (t, _) ↦ rw t (react_all-waiting ops grant fs k.1)
  ]
  react_all-waiting (collects ∷ ops) grant fs k = absurd k.0
  react_all-waiting (closes q ∷ ops) grant fs k = ground (arith, react_all-waiting ops grant fs k.1)

  -- A call that is out of reach never changes again.
  pub react_all-released :
      (ops : List Op) (e : Entry)
      → react_all id p ops (record { status = released; entry = e })
        ≡ record { status = released; entry = e }
  unfolding react_all react
  react_all-released [] e = refl
  react_all-released (registers j ∷ ops) e = ground (arith, react_all-released ops e)
  react_all-released (removes j ∷ ops) e = ground (arith, react_all-released ops e)
  react_all-released (takes_grant j ∷ ops) e = ground (arith, react_all-released ops e)
  react_all-released (grants j ∷ ops) e = ground (arith, react_all-released ops e)
  react_all-released (cancels c ∷ ops) e = ground (arith, react_all-released ops e)
  react_all-released (results r ∷ ops) e = ground (arith, react_all-released ops e)
  react_all-released (closes q ∷ ops) e = ground (arith, react_all-released ops e)
  react_all-released (_ ∷ ops) e = react_all-released ops e

  pub react_all-append :
      (ops more : List Op) (v : CallView)
      → react_all id p (ops ++ more) v ≡ react_all id p more (react_all id p ops v)
  unfolding react_all
  react_all-append [] more v = refl
  react_all-append (op ∷ ops) more v = react_all-append ops more (react id p op v)

  -- A `closeAll` that holds the call will close it, whatever comes between.
  pub react_all-closing :
      (ops : List Op) (e : Entry)
      → All (λ op. op ≢ closes p) ops
      → react_all id p ops (record { status = closing; entry = e })
        ≡ record { status = closing; entry = e }
  unfolding react_all react
  react_all-closing [] e a = refl
  react_all-closing (registers j ∷ ops) e a = ground (arith, react_all-closing ops e a.1)
  react_all-closing (removes j ∷ ops) e a = ground (arith, react_all-closing ops e a.1)
  react_all-closing (takes_grant j ∷ ops) e a = ground (arith, react_all-closing ops e a.1)
  react_all-closing (grants j ∷ ops) e a = ground (arith, react_all-closing ops e a.1)
  react_all-closing (cancels c ∷ ops) e a = ground (arith, react_all-closing ops e a.1)
  react_all-closing (results r ∷ ops) e a = ground (arith, react_all-closing ops e a.1)
  react_all-closing (closes q ∷ ops) e a = ground (arith, react_all-closing ops e a.1)
  react_all-closing (_ ∷ ops) e a = react_all-closing ops e a.1
