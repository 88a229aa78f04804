-- ===== src/Bridge/Call.antt =====
-- adapterhost/toolcall.go, CallAdapterTool: the part up to the `select`, what the other goroutines do
-- while the caller is blocked, and the part behind it.
mod Owner
pub mod Outcome
pub mod Streams
pub mod Replies
pub mod Sessions
use criteria_go_adapter_sdk.Base.{
  ℕ, zero, suc, String, ◌≡◌, Bool, true, false, ◌&&◌, not, List, [], ◌∷◌, Option, none, some,
  Result, ok, err, ◌>>=◌, wrap_err, ◌==◌, if◌then◌else◌, get_elem?,
}
use criteria_go_adapter_sdk.Base.Int.{ℤ, pos, negsuc}
use criteria_go_adapter_sdk.Wire.{PermissionCancel, Bytes, ToolCallResult, ExecuteEvent, adapter}
use criteria_go_adapter_sdk.Bridge.{
  Sentinel, Entry, Bridge, register, remove, take_grant, session_unsupported, cache_unsupported,
  no_chunk,
}
use criteria_go_adapter_sdk.Bridge.Step.{Op, run}
use criteria_go_adapter_sdk.Bridge.Error.{
  External, CtxErr, past_deadline, was_canceled, CallError, no_context, no_sink, tool_call_error,
  send_failed, reassemble_failed, decode_failed, call_denied, call_closed, call_ended,
  call_err_host_unsupported,
}
use criteria_go_adapter_sdk.Bridge.Payload.{
  Codec, AdapterToolCall, validate, build_tool_call_payload,
}

abbrev pub event_kind_permission_request : String
event_kind_permission_request = "permission.request"

-- 60 seconds, in nanoseconds.
abbrev pub default_tool_call_timeout : ℕ
default_tool_call_timeout = 60_000_000_000

-- `wait <= 0` takes the default.
abbrev pub call_timeout : ℤ → ℕ
call_timeout (pos zero) = default_tool_call_timeout
call_timeout (pos (suc n)) = suc n
call_timeout (negsuc n) = default_tool_call_timeout

-- A context.Context, as far as the call asks it: whether it carries a deadline.
pub record Context : Type 0 where
  pub has_deadline : Bool

-- How the `select` wakes up.
pub data Wake : Type 0 where
  completed : Wake
  expired : CtxErr → Wake

abbrev pub is_past_deadline : CtxErr → Bool
is_past_deadline past_deadline = true
is_past_deadline was_canceled = false

module _ (x : Codec) where
  open x use {Any, Struct, unmarshal, join_outputs}

  -- A decoded outputs object; `none` is the nil map.
  abbrev pub Outputs : Type 0
  Outputs = Option (List (String × Any))

  -- ExecuteEventSender: what `Send` returns.
  abbrev pub Sink : Type 0
  Sink = ExecuteEvent Struct → Option External

  -- `blocked` is a caller that the wake-up does not reach: its channel is open.
  pub data Reply : Type 0 where
    returned : Result CallError (String × Outputs) → Reply
    blocked : Reply

  -- Up to the `select`: an early return, or a call under way with its entry, the bound on the wait
  -- that the SDK imposes (`none` under a deadline of the caller's), and the event that was sent; or a
  -- call whose Send fails, with its entry still registered.
  pub data Issued : Type 0 where
    refused : CallError → Issued
    unsent : CallError → Issued
    sent : ℕ → Option ℕ → ExecuteEvent Struct → Issued

  abbrev pub decode_tool_call_outputs : Bytes → Result External Outputs
  decode_tool_call_outputs [] = ok none
  decode_tool_call_outputs (c ∷ raw) = unmarshal (c ∷ raw)

  abbrev pub is_single : ToolCallResult → List ToolCallResult → Bool
  is_single first [] = elim first.chunk [ none ↦ true | some c ↦ false ]
  is_single first (r ∷ rest) = false

  abbrev pub outputs_of :
      AdapterToolCall Any → ToolCallResult → List ToolCallResult → Result CallError Bytes
  outputs_of call first rest =
      if is_single first rest
      then ok first.outputs_json
      else wrap_err (reassemble_failed call.tool) (join_outputs (first ∷ rest))

  -- `none` is the panic of `entry.fragments[0]` on an empty slice.
  abbrev pub finish_fragments :
      AdapterToolCall Any → List ToolCallResult → Option (Result CallError (String × Outputs))
  finish_fragments call [] = none
  finish_fragments call (first ∷ rest) = some (
      if not (first.call_error == "")
      then err (tool_call_error first.call_error)
      else (outputs_of call first rest >>= λ raw.
          wrap_err (decode_failed call.tool) (decode_tool_call_outputs raw) >>= λ outputs.
          ok (first.outcome, outputs)))

  -- `finishToolCall`, on the fields of the entry in the order in which it asks for them.
  abbrev pub finish_fields :
      AdapterToolCall Any
      → Option Sentinel
      → Option PermissionCancel
      → List ToolCallResult
      → Option (Result CallError (String × Outputs))
  finish_fields call (some s) cancelled fragments = some (err (call_closed call.tool call.target s))
  finish_fields call none (some c) fragments =
      some (err (call_denied call.tool call.target c.reason))
  finish_fields call none none fragments = finish_fragments call fragments

  unfoldable pub finish_tool_call :
      AdapterToolCall Any → Entry → Option (Result CallError (String × Outputs))
  finish_tool_call call entry = finish_fields call entry.err entry.cancelled entry.fragments

  abbrev pub wait_bound : Context → AdapterToolCall Any → Option ℕ
  wait_bound ctx call = if ctx.has_deadline then none else some (call_timeout call.timeout)

  abbrev send_event :
      AdapterToolCall Any → String → Context → Sink → ExecuteEvent Struct → Bridge → Bridge × Issued
  send_event call id ctx sink event b =
      let (b', p) = register id b in
      elim (sink event) [
        | some e ↦ (b', unsent (send_failed call.tool e))
        | none ↦ (b', sent p (wait_bound ctx call) event)
      ]

  abbrev permission_request : ℕ → Struct → ExecuteEvent Struct
  permission_request now payload =
      adapter
        (record { event_kind = event_kind_permission_request; payload = payload; emitted_at = now })

  -- `id` is what newToolCallRequestID drew, `now` the clock.
  abbrev issue_valid : Context → Sink → AdapterToolCall Any → String → ℕ → Bridge → Bridge × Issued
  issue_valid ctx sink call id now b =
      if session_unsupported call.session_id b
      then (b, refused (tool_call_error call_err_host_unsupported))
      else elim (build_tool_call_payload x call id) [
        | err e ↦ (b, refused e)
        | ok payload ↦ send_event call id ctx sink (permission_request now payload) b
      ]

  unfoldable pub issue :
      Option Context → Option Sink → AdapterToolCall Any → String → ℕ → Bridge → Bridge × Issued
  issue none sink call id now b = (b, refused no_context)
  issue (some ctx) none call id now b = (b, refused no_sink)
  issue (some ctx) (some sink) call id now b = elim (validate call) [
    | err e ↦ (b, refused e)
    | ok _ ↦ issue_valid ctx sink call id now b
  ]

  -- The case `<-entry.done`, which waits for the channel to be closed.
  abbrev pub reply_when : Bool → Option (Result CallError (String × Outputs)) → Option Reply
  reply_when false result = some blocked
  reply_when true none = none
  reply_when true (some r) = some (returned r)

  abbrev pub completed_reply : AdapterToolCall Any → Entry → Option Reply
  completed_reply call entry = reply_when entry.done (finish_tool_call call entry)

  -- The case `<-callCtx.Done()`, behind `takeGrant`.
  abbrev pub expire : AdapterToolCall Any → String → CtxErr → Bool → Bridge → Bridge × Reply
  expire call id e granted b =
      if granted && is_past_deadline e
      then (
        cache_unsupported call.session_id b,
        returned (err (tool_call_error call_err_host_unsupported)),
      )
      else (remove id b, returned (err (call_ended call.tool call.target e)))

  -- Behind the `select`. `none` is a panic.
  unfoldable pub await : AdapterToolCall Any → String → ℕ → Wake → Bridge → Option (Bridge × Reply)
  await call id p completed b = elim (get_elem? b.heap p) [
    | none ↦ none
    | some entry ↦ elim (completed_reply call entry) [ none ↦ none | some r ↦ some (b, r) ]
  ]
  await call id p (expired e) b =
      let (b', granted) = take_grant id b in some (expire call id e granted b')

  -- `env` is what the other goroutines do to the bridge while the caller is in its Send or blocked. The
  -- entry of a Send that failed is removed after that.
  abbrev pub resume :
      AdapterToolCall Any → String → List Op → Wake → Bridge × Issued → Option (Bridge × Reply)
  resume call id env wake (b, refused e) = some (b, returned (err e))
  resume call id env wake (b, unsent e) = elim (run env b) [
    | none ↦ none
    | some b' ↦ some (remove id b', returned (err e))
  ]
  resume call id env wake (b, sent p wait event) = elim (run env b) [
    | none ↦ none
    | some b' ↦ await call id p wake b'
  ]

  unfoldable pub call_adapter_tool :
      Option Context
      → Option Sink
      → AdapterToolCall Any
      → String
      → ℕ
      → List Op
      → Wake
      → Bridge
      → Option (Bridge × Reply)
  call_adapter_tool ctx sink call id now env wake b =
      resume call id env wake (issue ctx sink call id now b)
