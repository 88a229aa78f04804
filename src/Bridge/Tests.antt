-- ===== src/Bridge/Tests.antt =====
-- Runs of the bridge on small inputs, and its theorems at some of them.
use mathlib.Core.Option
use criteria_go_adapter_sdk.Base.{
  String, ◌≡◌, refl, true, false, List, [], ◌∷◌, ◌++◌, Option, none, some, ok, err, get_elem?,
  arith, ◌⊎◌,
}
use criteria_go_adapter_sdk.Base.Int.{pos}
use criteria_go_adapter_sdk.Wire.{
  Bytes, ToolCallResult, PermissionCancel, ExecuteEvent, request, cancel, tool_call_result, unset,
}
use criteria_go_adapter_sdk.Permissions.{eof, with_code, code_ok, returned_nil, Served}
use criteria_go_adapter_sdk.Permissions.Acks.{heard, ended_by, Returns}
use criteria_go_adapter_sdk.Bridge.{
  Entry, Bridge, new_bridge, new_entry, register, collect, close_one, mark_granted, take_grant,
  cache_unsupported, session_unsupported, permissions_closed, route_result,
}
use criteria_go_adapter_sdk.Bridge.Step.{
  Op, registers, grants, cancels, results, collects, closes, step, run, takes_grant,
}
use criteria_go_adapter_sdk.Bridge.Invariant.{Inv, new_bridge-Inv}
use criteria_go_adapter_sdk.Bridge.Safety.{Safe, run-new_bridge-Safe}
use criteria_go_adapter_sdk.Bridge.View.{Shows, react}
use criteria_go_adapter_sdk.Bridge.View.Refines.{step-Shows}
use criteria_go_adapter_sdk.Bridge.Error.{past_deadline, call_denied, call_closed, tool_call_error}
use criteria_go_adapter_sdk.Bridge.Payload.{
  Codec, AdapterToolCall, build_tool_call_payload, format_adapter_tool_target,
}
use criteria_go_adapter_sdk.Bridge.Call.{
  Context, Wake, completed, expired, Sink, Reply, returned, refused, sent, issue, await,
  call_adapter_tool,
}
use criteria_go_adapter_sdk.Bridge.Call.Outcome.{fresh_view, call-total}
use criteria_go_adapter_sdk.Bridge.Call.Replies.{
  call-result, call-denied, call-closed, call-expired,
}
use criteria_go_adapter_sdk.Bridge.Call.Sessions.{call-fails_fast}
use criteria_go_adapter_sdk.Bridge.Dispatch.{Turn, permissions, route}
use criteria_go_adapter_sdk.Bridge.Dispatch.Waiting.{is_taken}
use criteria_go_adapter_sdk.Bridge.Dispatch.Ends.{permissions-ends}
use criteria_go_adapter_sdk.Bridge.Dispatch.Acks.{Heard, stream, IsStreamEnd, permissions-acks}

abbrev joined : List ToolCallResult → Bytes
joined [] = []
joined (r ∷ rs) = r.outputs_json ++ joined rs

-- Every encoding succeeds.
abbrev codec : Codec
codec = record {
  Any = String;
  Struct = List (String × String);
  text = λ s. s;
  object = λ fields. "object";
  canonical_json = λ a. ok [];
  unmarshal = λ raw. ok (some []);
  args_digest = λ args. ok "digest";
  new_struct = λ fields. ok fields;
  as_map = λ s. s;
  join_outputs = λ rs. ok (joined rs);
}

abbrev ctx : Option Context
ctx = some (record { has_deadline = false })

abbrev sink : Option (Sink codec)
sink = some (λ event. none)

abbrev call : AdapterToolCall String
call = record {
  session_id = "s";
  target = "adapter.shell.w.tools.ls";
  tool = "ls";
  args = "{}";
  preview = "";
  timeout = pos 0;
}

abbrev part : ToolCallResult
part = record {
  request_id = "r";
  outcome = "done";
  outputs_json = 123 ∷ [];
  call_error = "";
  chunk = some (record { seq = 0; total = 2; final = false });
}

abbrev last : ToolCallResult
last = record {
  request_id = "r";
  outcome = "done";
  outputs_json = 125 ∷ [];
  call_error = "";
  chunk = some (record { seq = 1; total = 2; final = true });
}

abbrev other : ToolCallResult
other = record part { request_id = "x" }

abbrev denial : PermissionCancel
denial = record { request_id = "r"; reason = "no" }

-- What the call does to a fresh bridge.
abbrev under_way : Bridge
under_way = record {
  heap = new_entry ∷ [];
  pending = ("r", 0) ∷ [];
  unsupported = [];
  closing = [];
}

abbrev sent_event : ExecuteEvent (List (String × String))
sent_event = ExecuteEvent.adapter (record {
  event_kind = "permission.request";
  payload =
      ("kind", "adapter_tool")
      ∷ ("request_id", "r")
      ∷ ("target", "adapter.shell.w.tools.ls")
      ∷ ("tool", "ls")
      ∷ ("args", "object")
      ∷ ("args_digest", "digest")
      ∷ [];
  emitted_at = 7;
})

target_of_tool : format_adapter_tool_target "shell" "w" "ls" ≡ call.target
unfolding format_adapter_tool_target
target_of_tool = refl

issued :
    issue codec ctx sink call "r" 7 new_bridge
    ≡ (under_way, sent 0 (some 60_000_000_000) sent_event)
unfolding issue register new_bridge build_tool_call_payload session_unsupported
issued = refl

run-new_bridge-Safe_example : Safe (run (registers "r" ∷ results last ∷ closes 0 ∷ []) new_bridge)
run-new_bridge-Safe_example = run-new_bridge-Safe (registers "r" ∷ results last ∷ closes 0 ∷ [])

under_way-Inv : Inv under_way
under_way-Inv = record {
  opens = ((new_entry, refl, refl), tt);
  distinct = (tt, tt);
  settled = ((λ h. cc), tt);
}

under_way-Shows : Shows "r" 0 under_way fresh_view
under_way-Shows = record { found = refl; status = refl; owner = λ _. refl }

step-Shows_example :
    Shows "r" 0
      (record under_way { pending = []; closing = 0 ∷ [] })
      (react "r" 0 collects fresh_view)
unfolding step collect
step-Shows_example =
    step-Shows "r" 0 collects under_way _ fresh_view under_way-Inv under_way-Shows refl

call-total_example :
    (r : Bridge × Reply codec) × (call_adapter_tool codec ctx sink call "r" 7
        (results last ∷ [])
        completed
        new_bridge
      ≡ some r)
    × Inv r.0
call-total_example =
    call-total codec ctx sink call "r" 7 (results last ∷ []) completed new_bridge new_bridge-Inv

abbrev replies : List Op → Wake → Option (Reply codec)
replies env wake =
    Option.map (λ t. t.1) (call_adapter_tool codec ctx sink call "r" 7 env wake new_bridge)

-- Two fragments, with another call's between them and a late one behind.
call-result_example :
    replies (results part ∷ results other ∷ results last ∷ results part ∷ []) completed
    ≡ some (returned (ok ("done", some [])))
call-result_example =
    call-result codec ctx sink call "r" 7 new_bridge under_way 0 (some 60_000_000_000) sent_event
      new_bridge-Inv issued (results part ∷ results other ∷ []) (results part ∷ []) last
      (ground arith) ((λ _. refl), ((λ _. ground arith), tt)) refl refl

call-denied_example :
    replies (grants "r" ∷ cancels denial ∷ []) completed
    ≡ some (returned (err (call_denied "ls" "adapter.shell.w.tools.ls" "no")))
call-denied_example =
    call-denied codec ctx sink call "r" 7 new_bridge under_way 0 (some 60_000_000_000) sent_event
      new_bridge-Inv issued (grants "r" ∷ []) [] denial (ground arith) (tt, tt) refl

call-closed_example :
    replies (collects ∷ closes 0 ∷ []) completed
    ≡ some (returned (err (call_closed "ls" "adapter.shell.w.tools.ls" permissions_closed)))
call-closed_example =
    call-closed codec ctx sink call "r" 7 new_bridge under_way 0 (some 60_000_000_000) sent_event
      new_bridge-Inv issued [] [] [] (ground arith) tt tt

-- A grant and a first fragment came, and the deadline passed.
call-expired_example :
    replies (grants "r" ∷ results part ∷ []) (expired past_deadline)
    ≡ some (returned (err (tool_call_error "host_unsupported")))
call-expired_example =
    call-expired codec ctx sink call "r" 7 new_bridge under_way 0 (some 60_000_000_000) sent_event
      new_bridge-Inv issued (grants "r" ∷ results part ∷ []) past_deadline (ground arith)
      (tt, ((λ _. refl), tt))

abbrev timed_out : Bridge
timed_out = record {
  heap = record new_entry { grant = true } ∷ [];
  pending = [];
  unsupported = "s" ∷ [];
  closing = [];
}

call-fails_fast_example :
    issue codec ctx sink call "r2" 9 timed_out
    ≡ (timed_out, refused (tool_call_error "host_unsupported"))
unfolding call_adapter_tool issue await register new_bridge build_tool_call_payload
    session_unsupported run step mark_granted take_grant cache_unsupported
call-fails_fast_example =
    call-fails_fast codec ctx sink (λ event. none) (record { has_deadline = false }) call call "r"
      "r2" 7 9 (grants "r" ∷ []) [] past_deadline new_bridge under_way timed_out timed_out 0
      (some 60_000_000_000) sent_event "host_unsupported" refl refl refl refl refl

-- The last fragment comes while another call is registered.
abbrev turns : List Turn
turns =
    record { round = heard (tool_call_result last); waiting = registers "q" ∷ []; between = [] }
    ∷ record { round = ended_by eof; waiting = []; between = [] }
    ∷ []

-- The bridge with both calls, and behind the loop.
abbrev both : Bridge
both = record under_way { heap = new_entry ∷ new_entry ∷ []; pending = ("r", 0) ∷ ("q", 1) ∷ [] }

abbrev closed : Bridge
closed = record {
  heap =
      record new_entry { done = true; fragments = last ∷ [] }
      ∷ record new_entry { done = true; err = some permissions_closed }
      ∷ new_entry
      ∷ [];
  pending = ("p", 2) ∷ [];
  unsupported = [];
  closing = [];
}

-- A third call comes while the second, which was registered during the loop, is being closed.
permissions-ends_example :
    (e : Entry) × (get_elem? closed.heap 1 ≡ some e)
    × ((e.done ≡ true) ⊎ (is_taken "q" (results last ∷ []) ≡ true))
unfolding permissions route_result register collect close_one run step route
permissions-ends_example =
    permissions-ends "q" 1 turns [] (λ p. registers "p" ∷ []) under_way closed both
      (record { decisions = []; ending = returned_nil }) (registers "q" ∷ []) (results last ∷ [])
      under_way-Inv refl refl refl refl refl

abbrev four : List Heard
four =
    record { event = request "r"; waiting = registers "q" ∷ []; between = takes_grant "r" ∷ [] }
    ∷ record { event = request ""; waiting = []; between = [] }
    ∷ record { event = cancel denial; waiting = []; between = [] }
    ∷ record { event = unset; waiting = []; between = [] }
    ∷ []

permissions-acks_example :
    (c : Bridge) × (s : Served) × (permissions
        (stream four (with_code code_ok) [] [])
        []
        (λ p. [])
        under_way
      ≡ some (c, s))
    × (s.decisions ≡ record { request_id = "r"; decision = "allow" } ∷ [])
    × Returns IsStreamEnd (with_code code_ok) s.ending
    × Inv c
permissions-acks_example =
    permissions-acks four (with_code code_ok) [] [] [] (λ p. []) under_way under_way-Inv
