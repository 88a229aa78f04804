-- ===== src/Bridge/Dispatch.antt =====
-- adapterhost/toolcall.go, ToolCallBridge.Permissions: the loop that routes the host's events into the
-- pending calls, and `closeAll`, which it defers, with the sections of other goroutines wherever the
-- mutex is free.
mod Routing
pub mod Total
pub mod Waiting
pub mod Ends
pub mod Acks
use criteria_go_adapter_sdk.Bridge.Step.{Op, run}
use criteria_go_adapter_sdk.Base.{
  ℕ, String, Bool, true, false, List, [], ◌∷◌, ◌++◌, Option, none, some, Result, ok, err,
  if◌then◌else◌, ◌==◌,
}
use criteria_go_adapter_sdk.Base.Panic.{◌>>=◌}
use criteria_go_adapter_sdk.Wire.{
  PermissionEvent, request, cancel, tool_call_result, unset, PermissionDecision,
}
use criteria_go_adapter_sdk.Permissions.{
  Code, code_ok, RecvError, with_code, Round, Ending, returned_nil, recv_failed, send_failed,
  blocked, Served, allow, after, is_normal_end,
}
use criteria_go_adapter_sdk.Bridge.{
  Bridge, mark_granted, route_cancel, route_result, pointers, collect, close_one,
}

-- This loop also takes a status of OK for the end of the stream.
abbrev pub is_stream_end : RecvError → Bool
is_stream_end (with_code code_ok) = true
is_stream_end e = is_normal_end e

-- One round of the loop, with what the other goroutines (callers, other streams) do to the bridge while
-- it is in Recv, and from there to its own section, during a Send if there is one.
pub record Turn : Type 0 where
  pub round : Round
  pub waiting : List Op
  pub between : List Op

-- `env p` is what the other goroutines do to the bridge ahead of the closing of entry p.
abbrev pub close_each : (ℕ → List Op) → List ℕ → Bridge → Option Bridge
close_each env [] b = some b
close_each env (p ∷ ps) b = do c ← run (env p) b; d ← close_one p c; close_each env ps d

unfoldable pub close_all : (ℕ → List Op) → Bridge → Option Bridge
close_all env b = close_each env (pointers b.pending) (collect b)

-- What one event makes of the bridge, where no `Send` fails.
unfoldable pub route : PermissionEvent → Bridge → Option Bridge
route (request id) b = if id == "" then some b else some (mark_granted id b)
route (cancel c) b = route_cancel c b
route (tool_call_result r) b = route_result r b
route unset b = some b

abbrev pub loop_end : RecvError → Ending
loop_end e = if is_stream_end e then returned_nil else recv_failed e

-- The decision that an event calls for.
abbrev pub answer : PermissionEvent → List PermissionDecision
answer (request id) = if id == "" then [] else allow id ∷ []
answer _ = []

abbrev pub send_result : List PermissionDecision → Option String → Option String
send_result [] send = none
send_result (d ∷ ds) send = send

abbrev pub before : List PermissionDecision → Bridge × Served → Bridge × Served
before ds (b, s) = (b, record s { decisions = ds ++ s.decisions })

abbrev pub lift {ℓ κ} : {A : Type ℓ} {B : Type κ} → (A → B) → Option A → Option B
lift f none = none
lift f (some a) = some (f a)

-- Behind the Send of a round: an error ends the loop.
abbrev pub after_send :
    PermissionEvent
    → Option String
    → (Bridge → Option (Bridge × Served))
    → Bridge
    → Option (Bridge × Served)
after_send ev (some e) loop b = some (b, record { decisions = answer ev; ending = send_failed e })
after_send ev none loop b = route ev b >>= λ b'. lift (before (answer ev)) (loop b')

-- Behind the Recv.
abbrev pub after_recv :
    Result RecvError PermissionEvent
    → Option String
    → List Op
    → (Bridge → Option (Bridge × Served))
    → Bridge
    → Option (Bridge × Served)
after_recv (err e) send between loop b = some (b, record { decisions = []; ending = loop_end e })
after_recv (ok ev) send between loop b =
    run between b >>= after_send ev (send_result (answer ev) send) loop

-- The loop alone; its turns are those of one stream, and `none` is a panic.
unfoldable pub dispatch : List Turn → Bridge → Option (Bridge × Served)
dispatch [] b = some (b, record { decisions = []; ending = blocked })
dispatch (t ∷ ts) b =
    run t.waiting b >>= after_recv t.round.recv t.round.send t.between (dispatch ts)

abbrev pub is_blocked : Ending → Bool
is_blocked blocked = true
is_blocked _ = false

-- The deferred `closeAll` runs when the loop returns; `dying` is what the others do until it has the
-- mutex, and `env` while it closes the entries.
abbrev pub deferred : List Op → (ℕ → List Op) → Bridge × Served → Option (Bridge × Served)
deferred dying env (b, s) =
    if is_blocked s.ending
    then some (b, s)
    else lift (λ b'. (b', s)) (run dying b >>= close_all env)

unfoldable pub permissions : List Turn → List Op → (ℕ → List Op) → Bridge → Option (Bridge × Served)
unfolding dispatch close_all
permissions turns dying env b = dispatch turns b >>= deferred dying env
