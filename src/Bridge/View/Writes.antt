-- ===== src/Bridge/View/Writes.antt =====
-- How a call's view changes with each write to the map and the heap.
use criteria_go_adapter_sdk.Base.{
  ℕ, String, ◌≡◌, ◌∙◌, refl, sym, ◌≢◌, false, inl, inr, List, [], ◌∷◌, ◌++◌, none, some, arith,
  lookup, insert, delete, get_elem?, get_elem?-append_left, get_elem?-set_ne, get_elem?-set_self,
  get_elem?-lt, length, set, Option-cases, subst, if◌then◌else◌, ◌==◌, lookup-delete, lookup-insert,
  String-cases, ap,
}
use criteria_go_adapter_sdk.Bridge.{
  Entry, Bridge, pointers, has_pointer, modify, close_done, with_heap, register, new_entry,
}
use criteria_go_adapter_sdk.Bridge.Pointers.{has-insert, has-insert_self}
use criteria_go_adapter_sdk.Bridge.Invariant.{Inv}
use criteria_go_adapter_sdk.Bridge.View.{
  Status, waiting, closing, released, CallView, status_of, Shows, close_with, leave, update,
  resolve,
}
use criteria_go_adapter_sdk.Bridge.View.Places.{
  if_same, at_status, other_entry, waiting_at, out_of_map, show_in, show_out, closing_of,
  not_closing, gone, out-delete, out_of_reach,
}

get-modify_ne :
    (f : Entry → Entry) (p q : ℕ) (heap : List Entry)
    → q ≢ p
    → get_elem? (modify f q heap) p ≡ get_elem? heap p
get-modify_ne f p q heap n = elim (Option-cases (get_elem? heap q)) [
  | inl e ↦ rw (e, modify) refl
  | inr (d, e) ↦ rw (e, modify) (get_elem?-set_ne heap q p (f d) n)
]

get-modify_self :
    (f : Entry → Entry) (p : ℕ) (heap : List Entry) (e : Entry)
    → get_elem? heap p ≡ some e
    → get_elem? (modify f p heap) p ≡ some (f e)
get-modify_self f p heap e g = rw (g, modify) (get_elem?-set_self heap p (f e) e g)

-- What a `close` that did not panic has done.
pub close_inv :
    (f : Entry → Entry) (q : ℕ) (b b' : Bridge) (heap : List Entry)
    → with_heap b (close_done f q heap) ≡ some b'
    → (d : Entry) × (get_elem? heap q ≡ some d)
      × (b' ≡ record b { heap = set heap q (close_with f d) })
close_inv f q b b' heap h = elim (Option-cases (get_elem? heap q)) [
  | inl e ↦ cc (rw (e, close_done) at h)
  | inr (d, e) ↦ (d, e, ground (arith, rw (e, close_done) at h))
]

-- An event leaves a call alone that is not waiting.
pub update-idle :
    (f : Entry → Entry) (st : Status) (e : Entry)
    → st ≢ waiting
    → update f (at_status st e) ≡ at_status st e
update-idle f waiting e n = absurd (n refl)
update-idle f closing e n = refl
update-idle f released e n = refl

pub resolve-idle :
    (f : Entry → Entry) (st : Status) (e : Entry)
    → st ≢ waiting
    → resolve f (at_status st e) ≡ at_status st e
resolve-idle f waiting e n = absurd (n refl)
resolve-idle f closing e n = refl
resolve-idle f released e n = refl

module _ (id : String) (p : ℕ) where
  pub unknown-Shows :
      (b : Bridge) (st : Status) (e : Entry) (k : String) (w : CallView)
      → lookup k b.pending ≡ none
      → (st ≢ waiting → w ≡ at_status st e)
      → Shows id p b (at_status st e)
      → Shows id p b (if k == id then w else at_status st e)
  unknown-Shows b st e k w miss same s = elim (String-cases k id) [
    | inl (t, eq) ↦ rw t (subst (Shows id p b) (sym (same λ h. absent h eq)) s)
    | inr (t, _) ↦ rw t s
  ]
    where
      absent : st ≡ waiting → k ≡ id → ⊥
      absent h eq =
          cc (waiting_at id p b e (subst (λ x. Shows id p b (at_status x e)) h s), miss, eq)

  -- The entry at `q`, which `k` led to, was closed, and `k` taken out of the map.
  closed-Shows :
      (f : Entry → Entry) (b : Bridge) (st : Status) (e d : Entry) (k : String) (q : ℕ)
      → Inv b
      → Shows id p b (at_status st e)
      → lookup k b.pending ≡ some q
      → get_elem? b.heap q ≡ some d
      → Shows id p
          (record b { heap = set b.heap q (close_with f d); pending = delete k b.pending })
          (if k == id then resolve f (at_status st e) else at_status st e)
  closed-Shows f b waiting e d k q i s hit g = elim (String-cases k id) [
    | inl (t, same) ↦
        let here : q ≡ p = ground (arith, same, waiting_at id p b e s) in
        let entry : d ≡ e = ground (arith, here, s.found) in
        rw (t, here, entry, same)
          (show_out id p _ released (close_with f e)
            (get_elem?-set_self b.heap p (close_with f e) e s.found) (gone id p b e i s)
            (ap (status_of false) (not_closing id p b e i s)))
    | inr (t, other) ↦ rw t (
        show_in id p _ e
          (get_elem?-set_ne b.heap q p (close_with f d) (other_entry id p b _ k q i s hit other)
            ∙ s.found)
          (lookup-delete k id b.pending ∙ rw t (waiting_at id p b e s)))
  ]
  closed-Shows f b closing e d k q i s hit g = rw (if_same (k == id) (at_status closing e)) (
      show_out id p _ closing e
        (get_elem?-set_ne b.heap q p (close_with f d) (out_of_reach id p b _ k q s (λ h. cc) hit)
          ∙ s.found)
        (out-delete id p k b.pending (out_of_map id p b _ s (λ h. cc)))
        (closing_of id p b _ s (λ h. cc)))
  closed-Shows f b released e d k q i s hit g = rw (if_same (k == id) (at_status released e)) (
      show_out id p _ released e
        (get_elem?-set_ne b.heap q p (close_with f d) (out_of_reach id p b _ k q s (λ h. cc) hit)
          ∙ s.found)
        (out-delete id p k b.pending (out_of_map id p b _ s (λ h. cc)))
        (closing_of id p b _ s (λ h. cc)))

  pub close_at-Shows :
      (f : Entry → Entry) (b b' : Bridge) (st : Status) (e : Entry) (k : String) (q : ℕ)
      → Inv b
      → Shows id p b (at_status st e)
      → lookup k b.pending ≡ some q
      → with_heap (record b { pending = delete k b.pending }) (close_done f q b.heap) ≡ some b'
      → Shows id p b' (if k == id then resolve f (at_status st e) else at_status st e)
  close_at-Shows f b b' st e k q i s hit h =
      let (d, g, eq) = close_inv f q (record b { pending = delete k b.pending }) b' b.heap h in
      subst (λ x. Shows id p x (if k == id then resolve f (at_status st e) else at_status st e))
        (sym eq) (closed-Shows f b st e d k q i s hit g)

  pub modify_at-Shows :
      (f : Entry → Entry) (b : Bridge) (st : Status) (e : Entry) (k : String) (q : ℕ)
      → Inv b
      → Shows id p b (at_status st e)
      → lookup k b.pending ≡ some q
      → Shows id p
          (record b { heap = modify f q b.heap })
          (if k == id then update f (at_status st e) else at_status st e)
  modify_at-Shows f b waiting e k q i s hit = elim (String-cases k id) [
    | inl (t, same) ↦
        let here : q ≡ p = ground (arith, same, waiting_at id p b e s) in
        rw (t, here)
          (show_in id p _ (f e) (get-modify_self f p b.heap e s.found) (waiting_at id p b e s))
    | inr (t, other) ↦ rw t (
        show_in id p _ e
          (get-modify_ne f p q b.heap (other_entry id p b _ k q i s hit other) ∙ s.found)
          (waiting_at id p b e s))
  ]
  modify_at-Shows f b closing e k q i s hit = rw (if_same (k == id) (at_status closing e)) (
      show_out id p _ closing e
        (get-modify_ne f p q b.heap (out_of_reach id p b _ k q s (λ h. cc) hit) ∙ s.found)
        (out_of_map id p b _ s (λ h. cc)) (closing_of id p b _ s (λ h. cc)))
  modify_at-Shows f b released e k q i s hit = rw (if_same (k == id) (at_status released e)) (
      show_out id p _ released e
        (get-modify_ne f p q b.heap (out_of_reach id p b _ k q s (λ h. cc) hit) ∙ s.found)
        (out_of_map id p b _ s (λ h. cc)) (closing_of id p b _ s (λ h. cc)))

  pub register-Shows :
      (b : Bridge) (st : Status) (e : Entry) (k : String)
      → Inv b
      → Shows id p b (at_status st e)
      → Shows id p (register k b).0 (if k == id then leave (at_status st e) else at_status st e)
  unfolding register
  register-Shows b st e k i s = inserted st s
    where
      fresh : p ≢ length b.heap
      fresh h = omega (arith, get_elem?-lt b.heap p e s.found)

      kept : get_elem? (b.heap ++ new_entry ∷ []) p ≡ some e
      kept = get_elem?-append_left b.heap (new_entry ∷ []) p e s.found

      still_out :
          (x : Status)
          → x ≢ waiting
          → Shows id p b (at_status x e)
          → has_pointer p (pointers (insert k (length b.heap) b.pending)) ≡ false
      still_out x n t =
          ground (arith, has-insert p (length b.heap) k b.pending fresh, out_of_map id p b _ t n)

      inserted :
          (x : Status)
          → Shows id p b (at_status x e)
          → Shows id p (register k b).0 (if k == id then leave (at_status x e) else at_status x e)
      inserted waiting t = elim (String-cases k id) [
        | inl (u, same) ↦
            rw (u, same)
              (show_out id p _ released e kept
                (has-insert_self id p (length b.heap) b.pending b.closing (waiting_at id p b e t)
                  fresh i.distinct)
                (ap (status_of false) (not_closing id p b e i t)))
        | inr (u, _) ↦ rw u (
            show_in id p _ e kept
              (lookup-insert k id (length b.heap) b.pending ∙ rw u (waiting_at id p b e t)))
      ]
      inserted closing t = rw (if_same (k == id) (at_status closing e)) (
          show_out id p _ closing e kept (still_out closing (λ h. cc) t)
            (closing_of id p b _ t (λ h. cc)))
      inserted released t = rw (if_same (k == id) (at_status released e)) (
          show_out id p _ released e kept (still_out released (λ h. cc) t)
            (closing_of id p b _ t (λ h. cc)))
