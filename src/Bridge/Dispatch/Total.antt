-- ===== src/Bridge/Dispatch/Total.antt =====
-- The dispatch loop never panics, and leaves the bridge well-formed.
use criteria_go_adapter_sdk.Base.{
  ℕ, ◌≡◌, ◌∙◌, refl, sym, ap, List, ◌∷◌, Option, none, some, arith, Bool-cases, inl, inr, subst,
}
use criteria_go_adapter_sdk.Base.Panic.{◌>>=◌}
use criteria_go_adapter_sdk.Permissions.{Served}
use criteria_go_adapter_sdk.Bridge.{Bridge, pointers}
use criteria_go_adapter_sdk.Bridge.Step.{Op, collects, run}
use criteria_go_adapter_sdk.Bridge.Invariant.{Inv}
use criteria_go_adapter_sdk.Bridge.Safety.{Safe, run-Safe}
use criteria_go_adapter_sdk.Bridge.Dispatch.{close_all, lift, dispatch, is_blocked, deferred, Turn}
use criteria_go_adapter_sdk.Bridge.Dispatch.Routing.{
  sections, closing_ops, dispatch-run, close_all-run,
}

pub lift_inv {ℓ κ} :
    {A : Type ℓ} {B : Type κ} (f : A → B) (r : Option A) {y : B}
    → lift f r ≡ some y
    → (a : A) × (r ≡ some a) × (f a ≡ y)
lift_inv f none h = cc
lift_inv f (some a) h = (a, refl, ground arith)

pub some_inj : {b c : Bridge} → some b ≡ some c → b ≡ c
some_inj h = ground arith

pub dispatch-total :
    (turns : List Turn) (b : Bridge)
    → Inv b
    → (t : Bridge × Served) × (dispatch turns b ≡ some t)
      × (run (sections turns) b ≡ some t.0)
      × Inv t.0
dispatch-total turns b i =
    let (c, ran, j) = run-Safe (sections turns) b i in
    let (t, e, same) = lift_inv (λ t. t.0) (dispatch turns b) (dispatch-run turns b ∙ ran) in
    (t, e, ran ∙ ap some (sym same), subst Inv (sym same) j)

pub close_all-total : (env : ℕ → List Op) (b : Bridge) → Inv b → Safe (close_all env b)
close_all-total env b i =
    rw (close_all-run env b) (run-Safe (collects ∷ closing_ops env (pointers b.pending)) b i)

pub deferred-total :
    (dying : List Op) (env : ℕ → List Op) (t : Bridge × Served)
    → Inv t.0
    → (r : Bridge × Served) × (deferred dying env t ≡ some r) × Inv r.0 × (r.1 ≡ t.1)
deferred-total dying env (b, s) i = elim (Bool-cases (is_blocked s.ending)) [
  | inl e ↦ ((b, s), rw e, i, refl)
  | inr e ↦
      let (c, ran, j) = run-Safe dying b i in
      let (d, closed, k) = close_all-total env c j in
      ((d, s), rw (e, ran, ◌>>=◌) (rw closed), k, refl)
]
