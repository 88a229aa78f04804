-- ===== src/Bridge/Call/Owner.antt =====
-- Whose entry a request id leads to, while nobody else draws that id.
use criteria_go_adapter_sdk.Base.{
  ℕ, String, ◌≡◌, refl, ◌≢◌, ◌⊎◌, inl, inr, List, [], ◌∷◌, Option, none, some, ap, lookup, insert,
  delete, lookup-insert, lookup-delete, length, arith, All, Option-cases, Bool-cases, String-cases,
  subst,
}
use criteria_go_adapter_sdk.Base.Panic.{◌>>=◌}
use criteria_go_adapter_sdk.Wire.{ToolCallResult, PermissionCancel}
use criteria_go_adapter_sdk.Bridge.{
  Entry, Bridge, register, remove, take_grant, cache_unsupported, mark_granted, route_cancel,
  route_result, collect, close_one, with_heap, close_done, is_terminal, has_pointer, drop_pointer,
  modify, add_fragment, set_cancelled, set_err,
}
use criteria_go_adapter_sdk.Bridge.Step.{
  Op, registers, removes, takes_grant, caches, grants, cancels, results, collects, closes, step,
  run,
}

-- Nobody else draws the request id `id`.
abbrev pub Unused : String → List Op → Type 0
Unused id = All (λ op. op ≢ registers id)

-- The id leads to the call's own entry, if anywhere.
abbrev pub Owned : String → ℕ → List (String × ℕ) → Type 0
Owned id p m = (lookup id m ≡ none) ⊎ (lookup id m ≡ some p)

module _ (id : String) (p : ℕ) where
  pub delete-Owned : (k : String) (m : List (String × ℕ)) → Owned id p m → Owned id p (delete k m)
  delete-Owned k m o = ground (arith, lookup-delete k id m)

  insert-Owned :
      (k : String) (q : ℕ) (m : List (String × ℕ))
      → k ≢ id
      → Owned id p m
      → Owned id p (insert k q m)
  insert-Owned k q m n o = elim (String-cases k id) [
    | inl (_, same) ↦ absurd (n same)
    | inr (t, _) ↦ rw (lookup-insert k id q m, t) o
  ]

  same-Owned : (b b' : Bridge) → some b ≡ some b' → Owned id p b.pending → Owned id p b'.pending
  same-Owned b b' h o = let e : b ≡ b' = ground arith in subst (λ x. Owned id p x.pending) e o

  heap-Owned :
      (b b' : Bridge) (heap : Option (List Entry))
      → with_heap b heap ≡ some b'
      → Owned id p b.pending
      → Owned id p b'.pending
  heap-Owned b b' none h o = cc
  heap-Owned b b' (some heap) h o = same-Owned _ b' h o

  mark_granted-pending : (k : String) (b : Bridge) → (mark_granted k b).pending ≡ b.pending
  unfolding mark_granted
  mark_granted-pending k b = elim (Option-cases (lookup k b.pending)) [
    | inl e ↦ rw (e, mark_granted)
    | inr (q, e) ↦ rw (e, mark_granted)
  ]

  route_result-Owned :
      (r : ToolCallResult) (b b' : Bridge)
      → route_result r b ≡ some b'
      → Owned id p b.pending
      → Owned id p b'.pending
  unfolding route_result
  route_result-Owned r b b' h o = elim (Option-cases (lookup r.request_id b.pending)) [
    | inl e ↦ same-Owned b b' (rw (e, route_result) at h) o
    | inr (q, e) ↦ elim (Bool-cases (is_terminal r)) [
      | inl last ↦
          heap-Owned (record b { pending = delete r.request_id b.pending }) b'
            (close_done (add_fragment r) q b.heap) (rw last at (rw (e, route_result) at h))
            (delete-Owned r.request_id b.pending o)
      | inr more ↦
          same-Owned (record b { heap = modify (add_fragment r) q b.heap }) b'
            (rw more at (rw (e, route_result) at h)) o
    ]
  ]

  route_cancel-Owned :
      (c : PermissionCancel) (b b' : Bridge)
      → route_cancel c b ≡ some b'
      → Owned id p b.pending
      → Owned id p b'.pending
  unfolding route_cancel
  route_cancel-Owned c b b' h o = elim (Option-cases (lookup c.request_id b.pending)) [
    | inl e ↦ same-Owned b b' (rw (e, route_cancel) at h) o
    | inr (q, e) ↦
        heap-Owned (record b { pending = delete c.request_id b.pending }) b'
          (close_done (set_cancelled c) q b.heap) (rw (e, route_cancel) at h)
          (delete-Owned c.request_id b.pending o)
  ]

  close_one-Owned :
      (q : ℕ) (b b' : Bridge)
      → close_one q b ≡ some b'
      → Owned id p b.pending
      → Owned id p b'.pending
  unfolding close_one
  close_one-Owned q b b' h o = elim (Bool-cases (has_pointer q b.closing)) [
    | inl e ↦
        heap-Owned (record b { closing = drop_pointer q b.closing }) b'
          (close_done set_err q b.heap) (rw e at h) o
    | inr e ↦ same-Owned b b' (rw e at h) o
  ]

  pub step-Owned :
      (op : Op) (b b' : Bridge)
      → op ≢ registers id
      → step op b ≡ some b'
      → Owned id p b.pending
      → Owned id p b'.pending
  unfolding step register remove take_grant cache_unsupported collect
  step-Owned (registers k) b b' n h o =
      same-Owned _ b' h (insert-Owned k (length b.heap) b.pending (λ e. n (ap registers e)) o)
  step-Owned (removes k) b b' n h o = same-Owned _ b' h (delete-Owned k b.pending o)
  step-Owned (takes_grant k) b b' n h o = same-Owned _ b' h (delete-Owned k b.pending o)
  step-Owned (caches k) b b' n h o = same-Owned _ b' h o
  step-Owned (grants k) b b' n h o = same-Owned _ b' h (rw (mark_granted-pending k b) o)
  step-Owned (cancels c) b b' n h o = route_cancel-Owned c b b' h o
  step-Owned (results r) b b' n h o = route_result-Owned r b b' h o
  step-Owned collects b b' n h o = same-Owned _ b' h (inl refl)
  step-Owned (closes q) b b' n h o = close_one-Owned q b b' h o

  pub run-Owned :
      (ops : List Op) (b b' : Bridge)
      → Unused id ops
      → run ops b ≡ some b'
      → Owned id p b.pending
      → Owned id p b'.pending
  unfolding run
  run-Owned [] b b' u h o = same-Owned b b' h o
  run-Owned (op ∷ ops) b b' u h o = elim (Option-cases (step op b)) [
    | inl e ↦ cc (rw (e, ◌>>=◌) at h)
    | inr (c, e) ↦ run-Owned ops c b' u.1 (rw (e, ◌>>=◌) at h) (step-Owned op b c u.0 e o)
  ]
