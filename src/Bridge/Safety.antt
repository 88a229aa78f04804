-- ===== src/Bridge/Safety.antt =====
-- No order of critical sections makes the bridge panic, and each keeps its invariant.
use criteria_go_adapter_sdk.Base.{
  ℕ, String, ◌≡◌, ◌∙◌, refl, sym, ◌≢◌, true, inl, inr, List, [], ◌∷◌, ◌++◌, Option, some, lookup,
  delete, All, All-append, get_elem?, get_elem?-append_last, length, set, Option-cases, Bool-cases,
}
use criteria_go_adapter_sdk.Base.Panic.{◌>>=◌}
use criteria_go_adapter_sdk.Wire.{ToolCallResult, PermissionCancel}
use criteria_go_adapter_sdk.Bridge.{
  Entry, Bridge, new_bridge, new_entry, pointers, drop_pointer, has_pointer, modify, close_done,
  with_heap, register, remove, take_grant, cache_unsupported, mark_granted, route_cancel,
  route_result, collect, close_one, set_grant, set_cancelled, set_err, add_fragment, is_terminal,
}
use criteria_go_adapter_sdk.Bridge.Pointers.{
  Avoids, Distinct, All-delete, All-insert, All-lookup, All-drop_append, All-member,
  Distinct-delete, Distinct-insert, Avoids-delete, Distinct-drop, Avoids-drop, Avoids-of_bound,
}
use criteria_go_adapter_sdk.Bridge.Invariant.{
  IsOpen, HasReply, IsSettled, held, Inv, new_bridge-Inv, IsSettled-set, IsSettled-get,
  opens-set_ne, opens-set_kept, opens-append, opens-bound,
}
use criteria_go_adapter_sdk.Bridge.Step.{
  Op, registers, removes, takes_grant, caches, grants, cancels, results, collects, closes, step,
  run,
}

-- The section returns, and leaves the bridge well-formed.
abbrev pub Safe : Option Bridge → Type 0
Safe r = (b : Bridge) × (r ≡ some b) × Inv b

pub register-Inv : (id : String) (b : Bridge) → Inv b → Inv (register id b).0
unfolding register
register-Inv id b v = record {
  opens =
      All-insert (IsOpen (b.heap ++ new_entry ∷ [])) id (length b.heap) b.pending b.closing
        (new_entry, get_elem?-append_last b.heap new_entry, refl)
        (opens-append b.heap (new_entry ∷ []) (held b) v.opens);
  distinct =
      Distinct-insert id (length b.heap) b.pending b.closing
        (Avoids-of_bound (length b.heap) (held b) (opens-bound b.heap (held b) v.opens)) v.distinct;
  settled = All-append IsSettled b.heap (new_entry ∷ []) v.settled ((λ e. cc), tt);
}

pub delete-Inv :
    (id : String) (b : Bridge) → Inv b → Inv (record b { pending = delete id b.pending })
delete-Inv id b v = record {
  opens = All-delete (IsOpen b.heap) id b.pending b.closing v.opens;
  distinct = Distinct-delete id b.pending b.closing v.distinct;
  settled = v.settled;
}

-- A write to an entry that neither closes it nor takes a reply from it.
modify-Inv :
    (f : Entry → Entry) (p : ℕ) (b : Bridge)
    → ((e : Entry) → (f e).done ≡ e.done)
    → ((e : Entry) → HasReply e → HasReply (f e))
    → Inv b
    → Inv (record b { heap = modify f p b.heap })
modify-Inv f p b same keep v = elim (Option-cases (get_elem? b.heap p)) [
  | inl e ↦ rw (e, modify) v
  | inr (d, e) ↦
      rw (e, modify)
        (record {
          opens = opens-set_kept b.heap p d (f d) (held b) e (same d) v.opens;
          distinct = v.distinct;
          settled =
              IsSettled-set b.heap p (f d)
                (λ s. keep d (IsSettled-get b.heap p d e v.settled (sym (same d) ∙ s))) v.settled;
        })
]

close-Safe :
    (f : Entry → Entry) (p : ℕ) (m : List (String × ℕ)) (c : List ℕ) (b : Bridge)
    → ((e : Entry) → HasReply (f e))
    → IsOpen b.heap p
    → Avoids p (pointers m ++ c)
    → All (IsOpen b.heap) (pointers m ++ c)
    → Distinct (pointers m ++ c)
    → All IsSettled b.heap
    → Safe (with_heap (record b { pending = m; closing = c }) (close_done f p b.heap))
close-Safe f p m c b reply (e, found, open_e) away opens distinct settled = (
  record b { heap = heap'; pending = m; closing = c },
  rw (found, close_done) (rw open_e),
  record {
    opens = opens-set_ne b.heap p closed (pointers m ++ c) away opens;
    distinct = distinct;
    settled = IsSettled-set b.heap p closed (λ _. reply e) settled;
  },
)
  where
    closed : Entry
    closed = record (f e) { done = true }

    heap' : List Entry
    heap' = set b.heap p closed

add_fragment-HasReply : (r : ToolCallResult) (e : Entry) → HasReply (add_fragment r e)
add_fragment-HasReply r e = inr (inr (nonempty e.fragments))
  where
    nonempty : (rs : List ToolCallResult) → rs ++ r ∷ [] ≢ []
    nonempty [] = λ h. cc
    nonempty (x ∷ xs) = λ h. cc

route_cancel-Safe : (c : PermissionCancel) (b : Bridge) → Inv b → Safe (route_cancel c b)
unfolding route_cancel
route_cancel-Safe c b v = elim (Option-cases (lookup c.request_id b.pending)) [
  | inl e ↦ rw (e, route_cancel) (b, refl, v)
  | inr (p, e) ↦
      rw (e, route_cancel)
        (close-Safe (set_cancelled c) p (delete c.request_id b.pending) b.closing b
          (λ d. inr (inl (λ h. cc)))
          (All-lookup (IsOpen b.heap) c.request_id p b.pending b.closing e v.opens)
          (Avoids-delete c.request_id p b.pending b.closing e v.distinct)
          (delete-Inv c.request_id b v).opens (delete-Inv c.request_id b v).distinct v.settled)
]

route_result-Safe : (r : ToolCallResult) (b : Bridge) → Inv b → Safe (route_result r b)
unfolding route_result
route_result-Safe r b v = elim (Option-cases (lookup r.request_id b.pending)) [
  | inl e ↦ rw (e, route_result) (b, refl, v)
  | inr (p, e) ↦ elim (Bool-cases (is_terminal r)) [
    | inl last ↦
        rw (e, route_result)
          (rw last (
            close-Safe (add_fragment r) p (delete r.request_id b.pending) b.closing b
              (add_fragment-HasReply r)
              (All-lookup (IsOpen b.heap) r.request_id p b.pending b.closing e v.opens)
              (Avoids-delete r.request_id p b.pending b.closing e v.distinct)
              (delete-Inv r.request_id b v).opens (delete-Inv r.request_id b v).distinct v.settled))
    | inr more ↦
        rw (e, route_result)
          (rw more (
            _,
            refl,
            modify-Inv (add_fragment r) p b (λ _. refl) (λ d _. add_fragment-HasReply r d) v,
          ))
  ]
]

close_one-Safe : (p : ℕ) (b : Bridge) → Inv b → Safe (close_one p b)
unfolding close_one
close_one-Safe p b v = elim (Bool-cases (has_pointer p b.closing)) [
  | inl e ↦ rw e (
      close-Safe set_err p b.pending (drop_pointer p b.closing) b (λ d. inl (λ h. cc))
        (All-member (IsOpen b.heap) p (pointers b.pending) b.closing e v.opens)
        (Avoids-drop p (pointers b.pending) b.closing e v.distinct)
        (All-drop_append (IsOpen b.heap) p (pointers b.pending) b.closing v.opens)
        (Distinct-drop p (pointers b.pending) b.closing v.distinct) v.settled)
  | inr e ↦ rw e (b, refl, v)
]

mark_granted-Inv : (id : String) (b : Bridge) → Inv b → Inv (mark_granted id b)
unfolding mark_granted
mark_granted-Inv id b v = elim (Option-cases (lookup id b.pending)) [
  | inl e ↦ rw (e, mark_granted) v
  | inr (p, e) ↦ rw (e, mark_granted) (modify-Inv set_grant p b (λ _. refl) (λ d h. h) v)
]

-- From a well-formed bridge every critical section returns (no channel is closed twice, no dangling
-- entry is read) and leaves the bridge well-formed.
pub step-Safe : (op : Op) (b : Bridge) → Inv b → Safe (step op b)
unfolding step remove take_grant cache_unsupported collect
step-Safe (registers id) b v = (_, refl, register-Inv id b v)
step-Safe (removes id) b v = (_, refl, delete-Inv id b v)
step-Safe (takes_grant id) b v = (_, refl, delete-Inv id b v)
step-Safe (caches sid) b v =
    (_, refl, record { opens = v.opens; distinct = v.distinct; settled = v.settled })
step-Safe (grants id) b v = (_, refl, mark_granted-Inv id b v)
step-Safe (cancels c) b v = route_cancel-Safe c b v
step-Safe (results r) b v = route_result-Safe r b v
step-Safe collects b v =
    (_, refl, record { opens = v.opens; distinct = v.distinct; settled = v.settled })
step-Safe (closes p) b v = close_one-Safe p b v

pub run-Safe : (ops : List Op) (b : Bridge) → Inv b → Safe (run ops b)
unfolding run
run-Safe [] b v = (b, refl, v)
run-Safe (op ∷ ops) b v = let (c, e, w) = step-Safe op b v in rw (e, ◌>>=◌) (run-Safe ops c w)

-- Whatever the goroutines do to a fresh bridge, in whatever order, none of them panics, and every
-- closed entry has a reply in it: a denial, a stream error or at least one result fragment.
pub run-new_bridge-Safe : (ops : List Op) → Safe (run ops new_bridge)
run-new_bridge-Safe ops = run-Safe ops new_bridge new_bridge-Inv
