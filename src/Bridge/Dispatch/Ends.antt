-- ===== src/Bridge/Dispatch/Ends.antt =====
-- The end of the dispatch loop leaves no call waiting.
use criteria_go_adapter_sdk.Bridge.Dispatch.Waiting.{
  is_taken, IsServed, react_all-IsServed, all_ended,
}
use criteria_go_adapter_sdk.Bridge.Dispatch.Total.{lift_inv, some_inj, dispatch-total}
use criteria_go_adapter_sdk.Base.{
  ℕ, String, ◌≡◌, ◌∙◌, refl, sym, ap, true, false, List, ◌∷◌, some, arith, Bool-cases, inl, inr,
  ◌⊎◌, subst, get_elem?, ◌++◌, lookup,
}
use criteria_go_adapter_sdk.Base.Panic.{◌>>=◌}
use criteria_go_adapter_sdk.Permissions.{Served}
use criteria_go_adapter_sdk.Bridge.{Entry, Bridge, pointers}
use criteria_go_adapter_sdk.Bridge.Step.{Op, collects, run}
use criteria_go_adapter_sdk.Bridge.Invariant.{Inv, IsOpen}
use criteria_go_adapter_sdk.Bridge.Safety.{run-Safe}
use criteria_go_adapter_sdk.Bridge.View.{waiting, CallView, Shows, react_all}
use criteria_go_adapter_sdk.Bridge.View.Refines.{run-Shows}
use criteria_go_adapter_sdk.Bridge.Pointers.{All-lookup}
use criteria_go_adapter_sdk.Bridge.Dispatch.{close_all, is_blocked, deferred, permissions, Turn}
use criteria_go_adapter_sdk.Bridge.Dispatch.Routing.{
  sections, closing_ops, run-append, close_all-run,
}

module _ (id : String) (p : ℕ) where
  -- `closeAll` ends a call that is still waiting, and leaves one that was ended.
  close_all-ends :
      (env : ℕ → List Op) (b c : Bridge) (v : CallView)
      → Inv b
      → Shows id p b v
      → IsServed v
      → close_all env b ≡ some c
      → (e : Entry) × (get_elem? c.heap p ≡ some e) × (e.done ≡ true)
  close_all-ends env b c v i s h closed =
      let ops : List Op = collects ∷ closing_ops env (pointers b.pending) in
      let t = run-Shows id p ops b c v i s (sym (close_all-run env b) ∙ closed) in
      (_, t.found, all_ended id p env b v.status v.entry s h)

  -- An id in the map shows its call as a waiting one.
  pending-Shows :
      (m : Bridge)
      → Inv m
      → lookup id m.pending ≡ some p
      → (e : Entry) × Shows id p m (record { status = waiting; entry = e })
  pending-Shows m i h =
      let (e, found, _) = All-lookup (IsOpen m.heap) id p m.pending m.closing h i.opens in
      (e, record { found = found; status = rw h (ground arith); owner = λ _. h })

  -- Two stretches of a run.
  split-run :
      (past rest : List Op) (b m d : Bridge)
      → run past b ≡ some m
      → run (past ++ rest) b ≡ some d
      → run rest m ≡ some d
  split-run past rest b m d first whole =
      ap (λ r. r >>= run rest) (sym first) ∙ (sym (run-append past rest b) ∙ whole)

  run-Inv : (ops : List Op) (b c : Bridge) → Inv b → run ops b ≡ some c → Inv c
  run-Inv ops b c i h = let (d, ran, j) = run-Safe ops b i in subst Inv (some_inj (sym ran ∙ h)) j

  -- From any moment of the loop at which the call is in the map, to the end of `closeAll`.
  closes_waiter :
      (env : ℕ → List Op) (b b' m d : Bridge) (past rest : List Op)
      → Inv b
      → run past b ≡ some m
      → run (past ++ rest) b ≡ some d
      → lookup id m.pending ≡ some p
      → close_all env d ≡ some b'
      → (e : Entry) × (get_elem? b'.heap p ≡ some e) × ((e.done ≡ true) ⊎ (is_taken id rest ≡ true))
  closes_waiter env b b' m d past rest i first whole at closed =
      let j = run-Inv past b m i first in
      let k = run-Inv (past ++ rest) b d i whole in
      let (e, shown) = pending-Shows m j at in
      let v : CallView = record { status = waiting; entry = e } in
      let ran = split-run past rest b m d first whole in
      let shown' = run-Shows id p rest m d v j shown ran in
      let later =
        run-Shows id p (collects ∷ closing_ops env (pointers d.pending)) d b'
          (react_all id p rest v) k shown' (sym (close_all-run env d) ∙ closed) in
      elim (Bool-cases (is_taken id rest)) [
        | inl t ↦ (_, later.found, inr t)
        | inr n ↦
            let (x, found, done) =
              close_all-ends env d b' (react_all id p rest v) k shown'
                (react_all-IsServed id p rest v (inl refl) n) closed in
            (x, found, inl done)
      ]

  -- When the loop has returned, for whatever reason, each call that was pending at any moment since it
  -- began, those registered meanwhile included, has its channel closed, so that its caller wakes up;
  -- unless its own caller gave it up, or another stream's `closeAll` took it, between that moment and the
  -- loop's own `closeAll`. Other goroutines may run their sections at every point where the mutex is free.
  pub permissions-ends :
      (turns : List Turn) (dying : List Op) (env : ℕ → List Op) (b b' m : Bridge) (s : Served)
      (past rest : List Op)
      → Inv b
      → permissions turns dying env b ≡ some (b', s)
      → is_blocked s.ending ≡ false
      → sections turns ++ dying ≡ past ++ rest
      → run past b ≡ some m
      → lookup id m.pending ≡ some p
      → (e : Entry) × (get_elem? b'.heap p ≡ some e) × ((e.done ≡ true) ⊎ (is_taken id rest ≡ true))
  unfolding permissions
  permissions-ends turns dying env b b' m s past rest i h stopped cut first at =
      let (t, e, ran, j) = dispatch-total turns b i in after_loop t j ran (rw (e, ◌>>=◌) at h)
    where
      after_loop :
          (t : Bridge × Served)
          → Inv t.0
          → run (sections turns) b ≡ some t.0
          → deferred dying env t ≡ some (b', s)
          → (e : Entry) × (get_elem? b'.heap p ≡ some e)
            × ((e.done ≡ true) ⊎ (is_taken id rest ≡ true))
      after_loop (c, u) j ran h = elim (Bool-cases (is_blocked u.ending)) [
        | inl q ↦ cc (rw q at h)
        | inr q ↦
            let (d, died, k) = run-Safe dying c j in
            let whole =
              ap (λ ops. run ops b) (sym cut)
              ∙ (run-append (sections turns) dying b ∙ (ap (λ r. r >>= run dying) ran ∙ died)) in
            let (x, closed, same) =
              lift_inv (λ x. (x, u)) (run dying c >>= close_all env) (rw q at h) in
            let closes_d : close_all env d ≡ some x =
              ap (λ r. r >>= close_all env) (sym died) ∙ closed in
            closes_waiter env b b' m d past rest i first whole at
              (closes_d ∙ ap (λ y. some y.0) same)
      ]
