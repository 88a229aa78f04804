-- ===== src/Bridge/Error.antt =====
-- The errors of a tool call, and `errors.Is` over what each wraps.
use criteria_go_adapter_sdk.Base.{String, Bool, true, false, ◌==◌}
use criteria_go_adapter_sdk.Bridge.{
  Sentinel, denied, host_unsupported, permissions_closed, deadline_exceeded, canceled,
}

-- An error of code that is not the SDK's: its text, and the sentinels that it wraps.
pub record External : Type 0 where
  pub text : String
  pub wraps : Sentinel → Bool

-- context.Context.Err of a context that is done.
pub data CtxErr : Type 0 where
  past_deadline was_canceled : CtxErr

abbrev pub ctx_sentinel : CtxErr → Sentinel
ctx_sentinel past_deadline = deadline_exceeded
ctx_sentinel was_canceled = canceled

-- Each constructor is one error that the code returns, with the values that its text shows: first
-- the tool's name, then the target.
pub data CallError : Type 0 where
  no_context no_sink no_session_id no_target no_tool : CallError
  tool_call_error : String → CallError
  args_failed args_no_object digest_failed struct_failed : String → External → CallError
  payload_failed : External → CallError
  send_failed reassemble_failed decode_failed : String → External → CallError
  call_denied : String → String → String → CallError
  call_closed : String → String → Sentinel → CallError
  call_ended : String → String → CtxErr → CallError

abbrev pub call_err_host_unsupported : String
call_err_host_unsupported = "host_unsupported"

abbrev pub same_sentinel : Sentinel → Sentinel → Bool
same_sentinel denied denied = true
same_sentinel host_unsupported host_unsupported = true
same_sentinel permissions_closed permissions_closed = true
same_sentinel deadline_exceeded deadline_exceeded = true
same_sentinel canceled canceled = true
same_sentinel _ _ = false

-- ToolCallError.Is
abbrev pub code_is : String → Sentinel → Bool
code_is code host_unsupported = code == call_err_host_unsupported
code_is code _ = false

pub error_is : CallError → Sentinel → Bool
error_is (tool_call_error code) s = code_is code s
error_is (args_failed _ x) s = x.wraps s
error_is (args_no_object _ x) s = x.wraps s
error_is (digest_failed _ x) s = x.wraps s
error_is (struct_failed _ x) s = x.wraps s
error_is (payload_failed x) s = x.wraps s
error_is (send_failed _ x) s = x.wraps s
error_is (reassemble_failed _ x) s = x.wraps s
error_is (decode_failed _ x) s = x.wraps s
error_is (call_denied _ _ _) s = same_sentinel denied s
error_is (call_closed _ _ t) s = same_sentinel t s
error_is (call_ended _ _ e) s = same_sentinel (ctx_sentinel e) s
error_is _ s = false
