-- ===== src/Bridge/Call/Outcome.antt =====
-- What a call returns is decided by its own automaton.
use mathlib.Core.Option
use criteria_go_adapter_sdk.Base.{
  ℕ, String, ◌≡◌, ap, refl, sym, ◌≢◌, ◌⊎◌, inl, inr, Bool, true, false, ◌&&◌, List, [], ◌∷◌, Option,
  none, some, Result, err, if◌then◌else◌, get_elem?, get_elem?-append_last, lookup,
  lookup-insert_self, arith, length, Bool-cases, subst,
}
use criteria_go_adapter_sdk.Wire.{ExecuteEvent, ToolCallResult, PermissionCancel}
use criteria_go_adapter_sdk.Bridge.{
  Sentinel, Entry, Bridge, new_entry, register, remove, take_grant, granted_at, cache_unsupported,
}
use criteria_go_adapter_sdk.Bridge.Step.{Op}
use criteria_go_adapter_sdk.Bridge.Invariant.{Inv, IsSettled, IsSettled-get}
use criteria_go_adapter_sdk.Bridge.Safety.{run-Safe, register-Inv, delete-Inv}
use criteria_go_adapter_sdk.Bridge.View.{waiting, CallView, Shows, react_all}
use criteria_go_adapter_sdk.Bridge.View.Refines.{run-Shows}
use criteria_go_adapter_sdk.Bridge.Error.{
  CallError, CtxErr, tool_call_error, call_ended, call_err_host_unsupported,
}
use criteria_go_adapter_sdk.Bridge.Payload.{Codec, AdapterToolCall}
use criteria_go_adapter_sdk.Bridge.Call.{
  Context, Wake, completed, expired, is_past_deadline, Sink, Reply, returned, blocked, Issued,
  refused, sent, Outputs, finish_tool_call, finish_fragments, finish_fields, reply_when, expire,
  resume, completed_reply, issue, await, call_adapter_tool, unsent,
}
use criteria_go_adapter_sdk.Bridge.Call.Owner.{Unused, Owned, run-Owned}

-- The view of a call that was just sent.
abbrev pub fresh_view : CallView
fresh_view = record { status = waiting; entry = new_entry }

register-Shows : (id : String) (b : Bridge) → Shows id (length b.heap) (register id b).0 fresh_view
unfolding register
register-Shows id b = record {
  found = get_elem?-append_last b.heap new_entry;
  status = rw (lookup-insert_self id (length b.heap) b.pending) (ground arith);
  owner = λ _. lookup-insert_self id (length b.heap) b.pending;
}

register-Owned : (id : String) (b : Bridge) → Owned id (length b.heap) (register id b).0.pending
unfolding register
register-Owned id b = inr (lookup-insert_self id (length b.heap) b.pending)

abbrev was_granted : CallView → Bool
was_granted v = elim v.status [ waiting ↦ v.entry.grant | _ ↦ false ]

-- A call that is still waiting reads its own grant, any other reads none.
granted-Shows :
    (id : String) (p : ℕ) (b : Bridge) (v : CallView)
    → Shows id p b v
    → Owned id p b.pending
    → granted_at b.heap (lookup id b.pending) ≡ was_granted v
granted-Shows id p b v s (inl e) = rw e (ground (arith, e, s.status))
granted-Shows id p b v s (inr e) = rw e (rw (s.found, granted_at) (ground (arith, e, s.status)))

module _ (x : Codec) where
  open x use {Any, Struct}

  -- What the call returns, by its own view alone.
  abbrev pub view_reply : AdapterToolCall Any → Wake → CallView → Option (Reply x)
  view_reply call completed v = completed_reply x call v.entry
  view_reply call (expired e) v = some (
      returned (
        err (
          if was_granted v && is_past_deadline e
          then tool_call_error call_err_host_unsupported
          else call_ended call.tool call.target e)))

  await-view_reply :
      (call : AdapterToolCall Any) (id : String) (p : ℕ) (wake : Wake) (b : Bridge) (v : CallView)
      → Shows id p b v
      → Owned id p b.pending
      → Option.map (λ r. r.1) (await x call id p wake b) ≡ view_reply call wake v
  unfolding await take_grant
  await-view_reply call id p completed b v s o = rw (s.found, await) (ground arith)
  await-view_reply call id p (expired e) b v s o =
      rw (granted-Shows id p b v s o, await)
        (elim (Bool-cases (was_granted v && is_past_deadline e)) [ inl h ↦ rw h | inr h ↦ rw h ])

  -- A call under way has registered its entry.
  issue-sent :
      (ctx : Option Context) (sink : Option (Sink x)) (call : AdapterToolCall Any) (id : String)
      (now : ℕ) (b b' : Bridge) (p : ℕ) (wait : Option ℕ) (event : ExecuteEvent Struct)
      → issue x ctx sink call id now b ≡ (b', sent p wait event)
      → (b' ≡ (register id b).0) × (p ≡ length b.heap)
  unfolding issue register
  issue-sent none sink call id now b b' p wait event h = cc
  issue-sent (some ctx) none call id now b b' p wait event h = cc
  issue-sent (some ctx) (some sink) call id now b b' p wait event h = ground arith

  issue-Inv :
      (ctx : Option Context) (sink : Option (Sink x)) (call : AdapterToolCall Any) (id : String)
      (now : ℕ) (b : Bridge)
      → Inv b
      → Inv (issue x ctx sink call id now b).0
  unfolding issue remove
  issue-Inv none sink call id now b i = i
  issue-Inv (some ctx) none call id now b i = i
  issue-Inv (some ctx) (some sink) call id now b i =
      ground (arith, register-Inv id b i, delete-Inv id (register id b).0 (register-Inv id b i))

  -- A call that was sent returns what its own view says, whatever the other goroutines do to the
  -- calls of others while it waits.
  pub call-view_reply :
      (ctx : Option Context) (sink : Option (Sink x)) (call : AdapterToolCall Any) (id : String)
      (now : ℕ) (env : List Op) (wake : Wake) (b b' : Bridge) (p : ℕ) (wait : Option ℕ)
      (event : ExecuteEvent Struct)
      → Inv b
      → issue x ctx sink call id now b ≡ (b', sent p wait event)
      → Unused id env
      → Option.map (λ r. r.1) (call_adapter_tool x ctx sink call id now env wake b)
        ≡ view_reply call wake (react_all id p env fresh_view)
  unfolding call_adapter_tool
  call-view_reply ctx sink call id now env wake b b' p wait event i h u =
      let (same, at) = issue-sent ctx sink call id now b b' p wait event h in
      let j : Inv b' = subst Inv (sym same) (register-Inv id b i) in
      let (c, ran, k) = run-Safe env b' j in
      let shown : Shows id p b' fresh_view = rw (same, at) (register-Shows id b) in
      let own : Owned id p b'.pending = rw (same, at) (register-Owned id b) in
      rw h (
        rw (ran, resume)
          (await-view_reply call id p wake c _ (run-Shows id p env b' c fresh_view j shown ran)
            (run-Owned id p env b' c u ran own)))

  finish_fragments-total :
      (call : AdapterToolCall Any) (fs : List ToolCallResult)
      → fs ≢ []
      → (r : Result CallError (String × Outputs x)) × (finish_fragments x call fs ≡ some r)
  finish_fragments-total call [] n = absurd (n refl)
  finish_fragments-total call (f ∷ fs) n = (_, refl)

  finish_fields-total :
      (call : AdapterToolCall Any) (s : Option Sentinel) (c : Option PermissionCancel)
      (fs : List ToolCallResult)
      → (s ≢ none) ⊎ ((c ≢ none) ⊎ (fs ≢ []))
      → (r : Result CallError (String × Outputs x)) × (finish_fields x call s c fs ≡ some r)
  finish_fields-total call (some s) c fs h = (_, refl)
  finish_fields-total call none (some c) fs h = (_, refl)
  finish_fields-total call none none fs h = finish_fragments-total call fs (ground arith)

  reply_when-total :
      (done : Bool) (f : Option (Result CallError (String × Outputs x)))
      → (done ≡ true → (r : Result CallError (String × Outputs x)) × (f ≡ some r))
      → (r : Reply x) × (reply_when x done f ≡ some r)
  reply_when-total false f h = (blocked, refl)
  reply_when-total true none h = absurd (cc ((h refl).1))
  reply_when-total true (some r) h = (returned r, refl)

  -- A closed entry has a reply, so `fragments[0]` is never read on an empty slice.
  completed-total :
      (call : AdapterToolCall Any) (e : Entry)
      → IsSettled e
      → (r : Reply x) × (completed_reply x call e ≡ some r)
  unfolding finish_tool_call
  completed-total call e s =
      reply_when-total e.done (finish_tool_call x call e)
        (λ d. finish_fields-total call e.err e.cancelled e.fragments (s d))

  expire-Inv :
      (call : AdapterToolCall Any) (id : String) (e : CtxErr) (granted : Bool) (b : Bridge)
      → Inv b
      → Inv (expire x call id e granted b).0
  unfolding remove cache_unsupported
  expire-Inv call id e granted b i = elim (Bool-cases (granted && is_past_deadline e)) [
    | inl t ↦ rw t (record { opens = i.opens; distinct = i.distinct; settled = i.settled })
    | inr t ↦ rw t (delete-Inv id b i)
  ]

  await-total :
      (call : AdapterToolCall Any) (id : String) (p : ℕ) (wake : Wake) (b : Bridge) (e : Entry)
      → Inv b
      → get_elem? b.heap p ≡ some e
      → (r : Bridge × Reply x) × (await x call id p wake b ≡ some r) × Inv r.0
  unfolding await take_grant
  await-total call id p completed b e i g =
      let (r, f) = completed-total call e (IsSettled-get b.heap p e g i.settled) in
      ((b, r), rw (g, await) (rw f), i)
  await-total call id p (expired c) b e i g =
      (_, refl, expire-Inv call id c _ _ (delete-Inv id b i))

  resume-total :
      (call : AdapterToolCall Any) (id : String) (env : List Op) (wake : Wake) (b : Bridge)
      (t : Issued x)
      → Inv b
      → ((p : ℕ) (wait : Option ℕ) (event : ExecuteEvent Struct)
          → t ≡ sent p wait event
          → Shows id p b fresh_view)
      → (r : Bridge × Reply x) × (resume x call id env wake (b, t) ≡ some r) × Inv r.0
  unfolding remove
  resume-total call id env wake b (refused e) i h = (_, refl, i)
  resume-total call id env wake b (unsent e) i h =
      let (c, ran, j) = run-Safe env b i in
      ((remove id c, returned (err e)), rw (ran, resume) refl, delete-Inv id c j)
  resume-total call id env wake b (sent p wait event) i h =
      let (c, ran, j) = run-Safe env b i in
      let shown = run-Shows id p env b c fresh_view i (h p wait event refl) ran in
      rw (ran, resume) (await-total call id p wake c _ j shown.found)

  -- On any arguments and whatever the other goroutines do, a call does not panic: it returns, or waits
  -- for an entry that is still open, and the bridge stays well-formed.
  pub call-total :
      (ctx : Option Context) (sink : Option (Sink x)) (call : AdapterToolCall Any) (id : String)
      (now : ℕ) (env : List Op) (wake : Wake) (b : Bridge)
      → Inv b
      → (r : Bridge × Reply x) × (call_adapter_tool x ctx sink call id now env wake b ≡ some r)
        × Inv r.0
  unfolding call_adapter_tool
  call-total ctx sink call id now env wake b i =
      let t : Bridge × Issued x = issue x ctx sink call id now b in
      resume-total call id env wake t.0 t.1 (issue-Inv ctx sink call id now b i) (λ p wait event h.
        issued p wait event
          (issue-sent ctx sink call id now b t.0 p wait event (ap (λ u. (t.0, u)) h)))
    where
      issued :
          (p : ℕ) (wait : Option ℕ) (event : ExecuteEvent Struct)
          → ((issue x ctx sink call id now b).0 ≡ (register id b).0) × (p ≡ length b.heap)
          → Shows id p (issue x ctx sink call id now b).0 fresh_view
      issued p wait event (same, at) = rw (same, at) (register-Shows id b)
