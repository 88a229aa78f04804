-- ===== src/Bridge.antt =====
-- adapterhost/toolcall.go, type ToolCallBridge: the state that the bridge's mutex guards, and one
-- function for each section that runs under it. The entries that the code shares by pointer (the
-- pending map, the blocked caller, `closeAll`) stand in a heap, and a pointer is an index into it.
-- `none` is the panic of a second `close` of one channel.
pub mod Step
mod Pointers
pub mod Invariant
pub mod Safety
pub mod View
pub mod Error
pub mod Payload
pub mod RequestId
pub mod Call
pub mod Dispatch
mod Tests
use criteria_go_adapter_sdk.Base.{
  ℕ, ◌+◌, String, Bool, true, false, ◌&&◌, ◌||◌, not, List, [], ◌∷◌, ◌++◌, map, Option, none, some,
  length, get_elem?, set, num_eq, lookup, insert, delete, contains, ◌==◌, if◌then◌else◌,
}
use criteria_go_adapter_sdk.Wire.{ToolCallResult, PermissionCancel, Chunk}

-- The sentinel errors that a caller tests for.
pub data Sentinel : Type 0 where
  denied host_unsupported permissions_closed deadline_exceeded canceled : Sentinel

-- pendingToolCall; `done` says that the channel is closed.
pub record Entry : Type 0 where
  pub done : Bool
  pub grant : Bool
  pub fragments : List ToolCallResult
  pub cancelled : Option PermissionCancel
  pub err : Option Sentinel

-- `closing` holds the entries that a `closeAll` took out of the map and has yet to close: it does
-- so after it has released the mutex.
pub record Bridge : Type 0 where
  pub heap : List Entry
  pub pending : List (String × ℕ)
  pub unsupported : List String
  pub closing : List ℕ

pub new_bridge : Bridge
new_bridge = record { heap = []; pending = []; unsupported = []; closing = [] }

abbrev pub new_entry : Entry
new_entry = record { done = false; grant = false; fragments = []; cancelled = none; err = none }

-- The result is the new entry's pointer.
pub register : String → Bridge → Bridge × ℕ
register id b = (
  record b { heap = b.heap ++ new_entry ∷ []; pending = insert id (length b.heap) b.pending },
  length b.heap,
)

pub remove : String → Bridge → Bridge
remove id b = record b { pending = delete id b.pending }

abbrev pub granted_at : List Entry → Option ℕ → Bool
granted_at heap none = false
granted_at heap (some p) = elim (get_elem? heap p) [ none ↦ false | some e ↦ e.grant ]

pub take_grant : String → Bridge → Bridge × Bool
take_grant id b =
    (record b { pending = delete id b.pending }, granted_at b.heap (lookup id b.pending))

pub session_unsupported : String → Bridge → Bool
session_unsupported sid b = contains sid b.unsupported

pub cache_unsupported : String → Bridge → Bridge
cache_unsupported sid b = record b {
  unsupported = if contains sid b.unsupported then b.unsupported else sid ∷ b.unsupported;
}

abbrev pub set_grant : Entry → Entry
set_grant e = record e { grant = true }

abbrev pub set_cancelled : PermissionCancel → Entry → Entry
set_cancelled c e = record e { cancelled = some c }

abbrev pub set_err : Entry → Entry
set_err e = record e { err = some permissions_closed }

abbrev pub add_fragment : ToolCallResult → Entry → Entry
add_fragment r e = record e { fragments = e.fragments ++ r ∷ [] }

-- A write through a pointer.
abbrev pub modify : (Entry → Entry) → ℕ → List Entry → List Entry
modify f p heap = elim (get_elem? heap p) [ none ↦ heap | some e ↦ set heap p (f e) ]

pub mark_granted : String → Bridge → Bridge
mark_granted id b = elim (lookup id b.pending) [
  | none ↦ b
  | some p ↦ record b { heap = modify set_grant p b.heap }
]

-- `close(entry.done)`, on an entry to which `f` was applied.
abbrev pub close_entry : (Entry → Entry) → Entry → ℕ → List Entry → Option (List Entry)
close_entry f e p heap = if e.done then none else some (set heap p (record (f e) { done = true }))

abbrev pub close_done : (Entry → Entry) → ℕ → List Entry → Option (List Entry)
close_done f p heap = elim (get_elem? heap p) [ none ↦ none | some e ↦ close_entry f e p heap ]

abbrev pub with_heap : Bridge → Option (List Entry) → Option Bridge
with_heap b none = none
with_heap b (some heap) = some (record b { heap = heap })

pub route_cancel : PermissionCancel → Bridge → Option Bridge
route_cancel c b = elim (lookup c.request_id b.pending) [
  | none ↦ some b
  | some p ↦
      with_heap (record b { pending = delete c.request_id b.pending })
        (close_done (set_cancelled c) p b.heap)
]

abbrev pub no_chunk : Option Chunk → Bool
no_chunk none = true
no_chunk (some c) = c.final

-- `res.GetCallError() != "" || res.GetChunk() == nil || res.GetChunk().GetFinal()`
abbrev pub is_terminal : ToolCallResult → Bool
is_terminal r = not (r.call_error == "") || no_chunk r.chunk

pub route_result : ToolCallResult → Bridge → Option Bridge
route_result r b = elim (lookup r.request_id b.pending) [
  | none ↦ some b
  | some p ↦
      if is_terminal r
      then with_heap (record b { pending = delete r.request_id b.pending })
          (close_done (add_fragment r) p b.heap)
      else some (record b { heap = modify (add_fragment r) p b.heap })
]

abbrev pub pointers : List (String × ℕ) → List ℕ
pointers [] = []
pointers ((k, p) ∷ m) = p ∷ pointers m

-- The part of `closeAll` under the mutex.
pub collect : Bridge → Bridge
collect b = record b { pending = []; closing = pointers b.pending ++ b.closing }

abbrev pub drop_pointer : ℕ → List ℕ → List ℕ
drop_pointer p [] = []
drop_pointer p (q ∷ qs) = if num_eq p q then qs else q ∷ drop_pointer p qs

abbrev pub has_pointer : ℕ → List ℕ → Bool
has_pointer p [] = false
has_pointer p (q ∷ qs) = num_eq p q || has_pointer p qs

-- One round of the loop behind it. A pointer that no `closeAll` holds is not closed.
pub close_one : ℕ → Bridge → Option Bridge
close_one p b =
    if has_pointer p b.closing
    then with_heap (record b { closing = drop_pointer p b.closing }) (close_done set_err p b.heap)
    else some b
