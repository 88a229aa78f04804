-- ===== src/Bridge/View.antt =====
-- One call's own view of the bridge, as an automaton that reacts to each critical section and knows
-- nothing of the other calls: the specification that the shared map and heap implement.
pub mod Places
mod Writes
pub mod Refines
use criteria_go_adapter_sdk.Base.{
  ℕ, String, ◌≡◌, Bool, true, false, List, [], ◌∷◌, Option, none, some, num_eq, lookup, get_elem?,
  if◌then◌else◌, ◌==◌,
}
use criteria_go_adapter_sdk.Bridge.{
  Entry, Bridge, pointers, has_pointer, set_grant, set_cancelled, set_err, add_fragment,
  is_terminal,
}
use criteria_go_adapter_sdk.Bridge.Step.{
  Op, registers, removes, takes_grant, caches, grants, cancels, results, collects, closes,
}

-- In the pending map; taken out by a `closeAll` that has not closed it yet; out of reach.
pub data Status : Type 0 where
  waiting closing released : Status

pub record CallView : Type 0 where
  pub status : Status
  pub entry : Entry

abbrev pub is_at : ℕ → Option ℕ → Bool
is_at p none = false
is_at p (some q) = num_eq q p

abbrev pub status_of : Bool → Bool → Status
status_of true _ = waiting
status_of false true = closing
status_of false false = released

-- The bridge `b` shows the call with request id `id` and entry `p` as `v`.
pub record Shows (id : String) (p : ℕ) (b : Bridge) (v : CallView) : Type 0 where
  pub found : get_elem? b.heap p ≡ some v.entry
  pub status : status_of (is_at p (lookup id b.pending)) (has_pointer p b.closing) ≡ v.status
  pub owner : has_pointer p (pointers b.pending) ≡ true → lookup id b.pending ≡ some p

abbrev pub close_with : (Entry → Entry) → Entry → Entry
close_with f e = record (f e) { done = true }

abbrev pub leave : CallView → CallView
leave v = elim v.status [ waiting ↦ record v { status = released } | _ ↦ v ]

-- What a waiting call makes of an event that carries its id.
abbrev pub update : (Entry → Entry) → CallView → CallView
update f v = elim v.status [ waiting ↦ record v { entry = f v.entry } | _ ↦ v ]

abbrev pub resolve : (Entry → Entry) → CallView → CallView
resolve f v = elim v.status [
  | waiting ↦ record { status = released; entry = close_with f v.entry }
  | _ ↦ v
]

abbrev pub orphan : CallView → CallView
orphan v = elim v.status [ waiting ↦ record v { status = closing } | _ ↦ v ]

abbrev pub abandon : CallView → CallView
abandon v = elim v.status [
  | closing ↦ record { status = released; entry = close_with set_err v.entry }
  | _ ↦ v
]

unfoldable pub react : String → ℕ → Op → CallView → CallView
react id p (registers k) v = if k == id then leave v else v
react id p (removes k) v = if k == id then leave v else v
react id p (takes_grant k) v = if k == id then leave v else v
react id p (caches sid) v = v
react id p (grants k) v = if k == id then update set_grant v else v
react id p (cancels c) v = if c.request_id == id then resolve (set_cancelled c) v else v
react id p (results r) v =
    if r.request_id == id
    then (if is_terminal r then resolve (add_fragment r) v else update (add_fragment r) v)
    else v
react id p collects v = orphan v
react id p (closes q) v = if num_eq q p then abandon v else v

unfoldable pub react_all : String → ℕ → List Op → CallView → CallView
react_all id p [] v = v
react_all id p (op ∷ ops) v = react_all id p ops (react id p op v)
