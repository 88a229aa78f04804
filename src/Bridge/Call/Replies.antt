-- ===== src/Bridge/Call/Replies.antt =====
-- What each kind of ending makes of a call: a last fragment, a denial, the end of the permission
-- stream, and the end of the caller's context.
use mathlib.Core.Option
use criteria_go_adapter_sdk.Base.{
  ℕ, String, ◌≡◌, ◌∙◌, refl, ap, ◌≢◌, true, false, ◌&&◌, List, [], ◌∷◌, ◌++◌, Option, none, some,
  arith, All, if◌then◌else◌, num_eq, err, Result,
}
use text.Mathlib.TextPositions.{eq_refl}
use criteria_go_adapter_sdk.Wire.{ToolCallResult, PermissionCancel, ExecuteEvent}
use criteria_go_adapter_sdk.Bridge.{
  Bridge, Entry, is_terminal, new_entry, add_fragment, set_cancelled, set_err, permissions_closed,
}
use criteria_go_adapter_sdk.Bridge.Step.{Op, cancels, results, collects, closes}
use criteria_go_adapter_sdk.Bridge.Invariant.{Inv}
use criteria_go_adapter_sdk.Bridge.View.{released, CallView, react, react_all, close_with}
use criteria_go_adapter_sdk.Bridge.Error.{
  CallError, CtxErr, call_denied, call_closed, call_ended, tool_call_error,
  call_err_host_unsupported,
}
use criteria_go_adapter_sdk.Bridge.Payload.{Codec, AdapterToolCall}
use criteria_go_adapter_sdk.Bridge.Call.{
  Context, Wake, completed, expired, is_past_deadline, Sink, Reply, returned, sent,
  finish_tool_call, finish_fragments, reply_when, issue, call_adapter_tool,
}
use criteria_go_adapter_sdk.Bridge.Call.Owner.{Unused}
use criteria_go_adapter_sdk.Bridge.Call.Outcome.{fresh_view, view_reply, call-view_reply}
use criteria_go_adapter_sdk.Bridge.Call.Streams.{
  KeepsWaiting, fragments_for, grants_for, waiting_view, react_all-waiting, react_all-released,
  react_all-append, react_all-closing,
}

-- The view of a call that an event ended.
abbrev ended : (Entry → Entry) → String → List Op → CallView
ended f id pre = record {
  status = released;
  entry =
      close_with f
        (record new_entry { grant = grants_for id pre; fragments = fragments_for id pre });
}

num_eq_refl : (p : ℕ) → num_eq p p ≡ true
num_eq_refl p = ground arith

module _ (id : String) (p : ℕ) (pre post : List Op) (k : All (KeepsWaiting id) pre) where
  waited :
      (ops : List Op)
      → react_all id p (pre ++ ops) fresh_view
        ≡ react_all id p ops (waiting_view (grants_for id pre) (fragments_for id pre))
  waited ops =
      react_all-append id p pre ops fresh_view
      ∙ ap (react_all id p ops) (react_all-waiting id p pre false [] k)

  view-result :
      (r : ToolCallResult)
      → r.request_id ≡ id
      → is_terminal r ≡ true
      → react_all id p (pre ++ results r ∷ post) fresh_view ≡ ended (add_fragment r) id pre
  unfolding react_all react
  view-result r same last =
      waited (results r ∷ post) ∙ rw (same, eq_refl id, last) (react_all-released id p post _)

  view-cancel :
      (c : PermissionCancel)
      → c.request_id ≡ id
      → react_all id p (pre ++ cancels c ∷ post) fresh_view ≡ ended (set_cancelled c) id pre
  unfolding react_all react
  view-cancel c same =
      waited (cancels c ∷ post) ∙ rw (same, eq_refl id) (react_all-released id p post _)

  view-close :
      (mid : List Op)
      → All (λ op. op ≢ closes p) mid
      → react_all id p (pre ++ collects ∷ (mid ++ closes p ∷ post)) fresh_view
        ≡ ended set_err id pre
  unfolding react_all react
  view-close mid a =
      waited (collects ∷ (mid ++ closes p ∷ post))
      ∙ (react_all-append id p mid (closes p ∷ post) _
          ∙ (ap (react_all id p (closes p ∷ post)) (react_all-closing id p mid _ a)
              ∙ rw (num_eq_refl p) (react_all-released id p post _)))

module _ (x : Codec) (ctx : Option Context) (sink : Option (Sink x)) (call : AdapterToolCall x.Any)
    (id : String) (now : ℕ) (b b' : Bridge) (p : ℕ) (wait : Option ℕ)
    (event : ExecuteEvent x.Struct) (valid : Inv b)
    (under_way : issue x ctx sink call id now b ≡ (b', sent p wait event)) where
  reply_to : List Op → Wake → Option (Reply x)
  reply_to env wake = Option.map (λ r. r.1) (call_adapter_tool x ctx sink call id now env wake b)

  replies :
      (env : List Op) (wake : Wake) (v : CallView)
      → Unused id env
      → react_all id p env fresh_view ≡ v
      → reply_to env wake ≡ view_reply x call wake v
  unfolding reply_to
  replies env wake v u e =
      call-view_reply x ctx sink call id now env wake b b' p wait event valid under_way u
      ∙ ap (view_reply x call wake) e

  -- A call whose last fragment arrives returns what finishToolCall makes of exactly the fragments
  -- that carried its request id, in the order of their arrival: no fragment of another call, none
  -- lost, and none that came later.
  pub call-result :
      (pre post : List Op) (r : ToolCallResult)
      → Unused id (pre ++ results r ∷ post)
      → All (KeepsWaiting id) pre
      → r.request_id ≡ id
      → is_terminal r ≡ true
      → Option.map
          (λ t. t.1)
          (call_adapter_tool x ctx sink call id now (pre ++ results r ∷ post) completed b)
        ≡ Option.map returned (finish_fragments x call (fragments_for id pre ++ r ∷ []))
  unfolding reply_to finish_tool_call
  call-result pre post r u k same last =
      replies (pre ++ results r ∷ post) completed _ u (view-result id p pre post k r same last)
      ∙ reply-map (finish_fragments x call (fragments_for id pre ++ r ∷ []))
    where
      reply-map :
          (f : Option (Result CallError (String × _))) → reply_when x true f ≡ Option.map returned f
      reply-map none = refl
      reply-map (some r) = refl

  -- A denial returns the ErrDenied error with the host's reason, whatever fragments came before it and
  -- whatever comes behind.
  pub call-denied :
      (pre post : List Op) (c : PermissionCancel)
      → Unused id (pre ++ cancels c ∷ post)
      → All (KeepsWaiting id) pre
      → c.request_id ≡ id
      → Option.map
          (λ t. t.1)
          (call_adapter_tool x ctx sink call id now (pre ++ cancels c ∷ post) completed b)
        ≡ some (returned (err (call_denied call.tool call.target c.reason)))
  unfolding reply_to finish_tool_call
  call-denied pre post c u k same =
      replies (pre ++ cancels c ∷ post) completed _ u (view-cancel id p pre post k c same)

  -- When the permission stream ends while the call waits, the call returns the error
  -- around ErrPermissionsClosed once the dying stream has closed its entry.
  pub call-closed :
      (pre mid post : List Op)
      → Unused id (pre ++ collects ∷ (mid ++ closes p ∷ post))
      → All (KeepsWaiting id) pre
      → All (λ op. op ≢ closes p) mid
      → Option.map
          (λ t. t.1)
          (call_adapter_tool x ctx sink call id now
            (pre ++ collects ∷ (mid ++ closes p ∷ post))
            completed
            b)
        ≡ some (returned (err (call_closed call.tool call.target permissions_closed)))
  unfolding reply_to finish_tool_call
  call-closed pre mid post u k a = replies _ completed _ u (view-close id p pre post k mid a)

  -- When the context ends first, the call returns host_unsupported if the deadline passed and an
  -- allow-grant had come, also where fragments of a result had come too; otherwise it returns the
  -- error around the context's.
  pub call-expired :
      (env : List Op) (e : CtxErr)
      → Unused id env
      → All (KeepsWaiting id) env
      → Option.map (λ t. t.1) (call_adapter_tool x ctx sink call id now env (expired e) b)
        ≡ some (
            returned (
              err (
                if grants_for id env && is_past_deadline e
                then tool_call_error call_err_host_unsupported
                else call_ended call.tool call.target e)))
  unfolding reply_to
  call-expired env e u k = replies env (expired e) _ u (react_all-waiting id p env false [] k)
