-- ===== src/Bridge/View/Refines.antt =====
-- The bridge implements the automaton of each call.
use criteria_go_adapter_sdk.Base.{
  ℕ, String, ◌≡◌, ◌∙◌, refl, sym, ◌≢◌, true, false, inl, inr, List, [], ◌∷◌, ◌++◌, some, arith,
  lookup, get_elem?-set_ne, get_elem?-set_self, set, Option-cases, Bool-cases, subst, if◌then◌else◌,
  ◌==◌, num_eq, ap,
}
use criteria_go_adapter_sdk.Base.Panic.{◌>>=◌}
use criteria_go_adapter_sdk.Wire.{ToolCallResult, PermissionCancel}
use criteria_go_adapter_sdk.Bridge.{
  Entry, Bridge, pointers, drop_pointer, has_pointer, modify, remove, take_grant, cache_unsupported,
  mark_granted, route_cancel, route_result, collect, close_one, set_grant, set_cancelled, set_err,
  add_fragment, is_terminal,
}
use criteria_go_adapter_sdk.Bridge.Pointers.{
  Avoids-drop, has-false, has-append, has-drop_ne, lookup-has,
}
use criteria_go_adapter_sdk.Bridge.Invariant.{Inv}
use criteria_go_adapter_sdk.Bridge.Safety.{step-Safe}
use criteria_go_adapter_sdk.Bridge.View.{
  Status, waiting, closing, released, CallView, status_of, Shows, close_with, update, orphan,
  abandon, react, react_all,
}
use criteria_go_adapter_sdk.Bridge.Step.{
  Op, registers, removes, takes_grant, caches, grants, cancels, results, collects, closes, step,
  run,
}
use criteria_go_adapter_sdk.Bridge.View.Places.{
  at_status, waiting_at, out_of_map, show_out, closing_of, not_closing, delete-Shows,
}
use criteria_go_adapter_sdk.Bridge.View.Writes.{
  update-idle, resolve-idle, unknown-Shows, close_at-Shows, modify_at-Shows, register-Shows,
  close_inv,
}

module _ (id : String) (p : ℕ) where
  grant-Shows :
      (b : Bridge) (st : Status) (e : Entry) (k : String)
      → Inv b
      → Shows id p b (at_status st e)
      → Shows id p
          (mark_granted k b)
          (if k == id then update set_grant (at_status st e) else at_status st e)
  unfolding mark_granted
  grant-Shows b st e k i s = elim (Option-cases (lookup k b.pending)) [
    | inl miss ↦
        rw (miss, mark_granted) (unknown-Shows id p b st e k _ miss (update-idle set_grant st e) s)
    | inr (q, hit) ↦ rw (hit, mark_granted) (modify_at-Shows id p set_grant b st e k q i s hit)
  ]

  cancel-Shows :
      (b b' : Bridge) (st : Status) (e : Entry) (c : PermissionCancel)
      → Inv b
      → Shows id p b (at_status st e)
      → route_cancel c b ≡ some b'
      → Shows id p b' (react id p (cancels c) (at_status st e))
  unfolding route_cancel react
  cancel-Shows b b' st e c i s h = elim (Option-cases (lookup c.request_id b.pending)) [
    | inl miss ↦
        let same : b ≡ b' = ground (arith, rw (miss, route_cancel) at h) in
        rw (← same)
          (unknown-Shows id p b st e c.request_id _ miss (resolve-idle (set_cancelled c) st e) s)
    | inr (q, hit) ↦
        close_at-Shows id p (set_cancelled c) b b' st e c.request_id q i s hit
          (rw (hit, route_cancel) at h)
  ]

  result-Shows :
      (b b' : Bridge) (st : Status) (e : Entry) (r : ToolCallResult)
      → Inv b
      → Shows id p b (at_status st e)
      → route_result r b ≡ some b'
      → Shows id p b' (react id p (results r) (at_status st e))
  unfolding route_result react
  result-Shows b b' st e r i s h = elim (Option-cases (lookup r.request_id b.pending)) [
    | inl miss ↦
        let same : b ≡ b' = ground (arith, rw (miss, route_result) at h) in
        rw (← same) (
          unknown-Shows id p b st e r.request_id _ miss
            (λ n. elim (Bool-cases (is_terminal r)) [
              | inl last ↦ rw last (resolve-idle (add_fragment r) st e n)
              | inr more ↦ rw more (update-idle (add_fragment r) st e n)
            ])
            s)
    | inr (q, hit) ↦ elim (Bool-cases (is_terminal r)) [
      | inl last ↦ rw last (
          close_at-Shows id p (add_fragment r) b b' st e r.request_id q i s hit
            (rw last at (rw (hit, route_result) at h)))
      | inr more ↦
          let same : record b { heap = modify (add_fragment r) q b.heap } ≡ b' =
            ground (arith, rw more at (rw (hit, route_result) at h)) in
          rw (more, ← same) (modify_at-Shows id p (add_fragment r) b st e r.request_id q i s hit)
    ]
  ]

  collect-Shows :
      (b : Bridge) (st : Status) (e : Entry)
      → Shows id p b (at_status st e)
      → Shows id p (collect b) (orphan (at_status st e))
  unfolding collect
  collect-Shows b waiting e s = show_out id p _ closing e s.found refl (
      rw (
        has-append p (pointers b.pending) b.closing,
        lookup-has p id b.pending (waiting_at id p b e s),
      ))
  collect-Shows b closing e s = show_out id p _ closing e s.found refl (
      rw (has-append p (pointers b.pending) b.closing, out_of_map id p b _ s (λ h. cc))
        (closing_of id p b _ s (λ h. cc)))
  collect-Shows b released e s = show_out id p _ released e s.found refl (
      rw (has-append p (pointers b.pending) b.closing, out_of_map id p b _ s (λ h. cc))
        (closing_of id p b _ s (λ h. cc)))

  -- The bridge after `closes q`, and the entry at `q` before it.
  closed : Bridge → ℕ → Entry → Bridge
  closed b q d = record b {
    heap = set b.heap q (close_with set_err d);
    closing = drop_pointer q b.closing;
  }

  closing_held :
      (b : Bridge) (e : Entry) → Shows id p b (at_status closing e) → has_pointer p b.closing ≡ true
  closing_held b e s = ground (arith, closing_of id p b _ s (λ h. cc))

  released_not_held :
      (b : Bridge) (e : Entry)
      → Shows id p b (at_status released e)
      → has_pointer p b.closing ≡ false
  released_not_held b e s = ground (arith, closing_of id p b _ s (λ h. cc))

  abandon-idle :
      (b : Bridge) (st : Status) (e : Entry)
      → has_pointer p b.closing ≡ false
      → Shows id p b (at_status st e)
      → abandon (at_status st e) ≡ at_status st e
  abandon-idle b waiting e h s = refl
  abandon-idle b closing e h s = cc (closing_held b e s)
  abandon-idle b released e h s = refl

  -- Another entry is closed.
  closed-Shows_ne :
      (b : Bridge) (st : Status) (e d : Entry) (q : ℕ)
      → q ≢ p
      → Shows id p b (at_status st e)
      → Shows id p (closed b q d) (at_status st e)
  unfolding closed
  closed-Shows_ne b st e d q n s = record {
    found = get_elem?-set_ne b.heap q p (close_with set_err d) n ∙ s.found;
    status = rw (has-drop_ne p q b.closing (λ h. n (sym h))) s.status;
    owner = s.owner;
  }

  closed-Shows_self :
      (b : Bridge) (st : Status) (e : Entry)
      → Inv b
      → has_pointer p b.closing ≡ true
      → Shows id p b (at_status st e)
      → Shows id p (closed b p e) (abandon (at_status st e))
  unfolding closed
  closed-Shows_self b waiting e i h s = absurd (cc (not_closing id p b e i s))
  closed-Shows_self b released e i h s = absurd (cc (released_not_held b e s))
  closed-Shows_self b closing e i h s =
      show_out id p _ released (close_with set_err e)
        (get_elem?-set_self b.heap p (close_with set_err e) e s.found)
        (out_of_map id p b _ s (λ h. cc)) (ap (status_of false) dropped)
    where
      dropped : has_pointer p (drop_pointer p b.closing) ≡ false
      dropped = ground (
        arith,
        has-append p (pointers b.pending) (drop_pointer p b.closing),
        has-false p (pointers b.pending ++ drop_pointer p b.closing)
            (Avoids-drop p (pointers b.pending) b.closing h i.distinct),
      )

  closed-Shows_hit :
      (b : Bridge) (st : Status) (e d : Entry) (q : ℕ)
      → Inv b
      → q ≡ p
      → d ≡ e
      → has_pointer p b.closing ≡ true
      → Shows id p b (at_status st e)
      → Shows id p (closed b q d) (abandon (at_status st e))
  closed-Shows_hit b st e d q i here entry h s = rw (here, entry) (closed-Shows_self b st e i h s)

  close_one-Shows :
      (b b' : Bridge) (st : Status) (e : Entry) (q : ℕ)
      → Inv b
      → Shows id p b (at_status st e)
      → close_one q b ≡ some b'
      → Shows id p b' (react id p (closes q) (at_status st e))
  unfolding close_one react closed
  close_one-Shows b b' st e q i s h = elim (Bool-cases (has_pointer q b.closing)) [
    | inr free ↦
        let same : b ≡ b' = ground (arith, rw free at h) in
        elim (Bool-cases (num_eq q p)) [
          | inl t ↦
              let here : q ≡ p = ground arith in
              rw (t, ← same, abandon-idle b st e (rw here at free) s) s
          | inr t ↦ rw (t, ← same) s
        ]
    | inl busy ↦
        let (d, g, eq) =
          close_inv set_err q (record b { closing = drop_pointer q b.closing }) b' b.heap
            (rw busy at h) in
        elim (Bool-cases (num_eq q p)) [
          | inl t ↦
              let here : q ≡ p = ground arith in
              let entry : d ≡ e = ground (arith, here, s.found) in
              subst
                (λ y.
                  Shows id p y (if num_eq q p then abandon (at_status st e) else at_status st e))
                (sym eq) (rw t (closed-Shows_hit b st e d q i here entry (rw here at busy) s))
          | inr t ↦ rw (t, eq) (closed-Shows_ne b st e d q (λ n. ground arith) s)
        ]
  ]

  into : {c b' : Bridge} → some c ≡ some b' → (v : CallView) → Shows id p c v → Shows id p b' v
  into {c} {b'} h v s = let e : c ≡ b' = ground arith in subst (λ x. Shows id p x v) e s

  -- Each critical section changes one call's view of the bridge as the call's own automaton says,
  -- whatever it does to the other calls.
  pub step-Shows :
      (op : Op) (b b' : Bridge) (v : CallView)
      → Inv b
      → Shows id p b v
      → step op b ≡ some b'
      → Shows id p b' (react id p op v)
  unfolding step react remove take_grant cache_unsupported
  step-Shows (registers k) b b' v i s h = into h _ (register-Shows id p b v.status v.entry k i s)
  step-Shows (removes k) b b' v i s h = into h _ (delete-Shows id p b v.status v.entry k i s)
  step-Shows (takes_grant k) b b' v i s h = into h _ (delete-Shows id p b v.status v.entry k i s)
  step-Shows (caches sid) b b' v i s h =
      into h _ (record { found = s.found; status = s.status; owner = s.owner })
  step-Shows (grants k) b b' v i s h = into h _ (grant-Shows b v.status v.entry k i s)
  step-Shows (cancels c) b b' v i s h = cancel-Shows b b' v.status v.entry c i s h
  step-Shows (results r) b b' v i s h = result-Shows b b' v.status v.entry r i s h
  step-Shows collects b b' v i s h = into h _ (collect-Shows b v.status v.entry s)
  step-Shows (closes q) b b' v i s h = close_one-Shows b b' v.status v.entry q i s h

  pub run-Shows :
      (ops : List Op) (b b' : Bridge) (v : CallView)
      → Inv b
      → Shows id p b v
      → run ops b ≡ some b'
      → Shows id p b' (react_all id p ops v)
  unfolding run react_all
  run-Shows [] b b' v i s h = into h _ s
  run-Shows (op ∷ ops) b b' v i s h =
      let (c, e, j) = step-Safe op b i in
      run-Shows ops c b' (react id p op v) j (step-Shows op b c v i s e) (rw (e, ◌>>=◌) at h)
