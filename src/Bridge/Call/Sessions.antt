-- ===== src/Bridge/Call/Sessions.antt =====
-- The per-session cache of hosts that predate adapter tools.
use criteria_go_adapter_sdk.Base.{
  ℕ, String, ◌≡◌, ap, Bool, true, ◌&&◌, List, [], ◌∷◌, Option, none, some, arith, delete,
  if◌then◌else◌, inl, inr, eq_iff, err, ok, contains, lookup, Option-cases, Bool-cases, subst,
}
use text.Mathlib.TextPositions.{eq_refl}
use criteria_go_adapter_sdk.Base.Panic.{◌>>=◌}
use criteria_go_adapter_sdk.Wire.{ToolCallResult, PermissionCancel, ExecuteEvent}
use criteria_go_adapter_sdk.Bridge.{
  Entry, Bridge, register, remove, take_grant, session_unsupported, cache_unsupported, mark_granted,
  route_cancel, route_result, collect, close_one, with_heap, close_done, is_terminal, has_pointer,
  drop_pointer, set_cancelled, set_err, add_fragment, modify,
}
use criteria_go_adapter_sdk.Bridge.Step.{
  Op, registers, removes, takes_grant, caches, grants, cancels, results, collects, closes, step,
  run,
}
use criteria_go_adapter_sdk.Bridge.Error.{CtxErr, tool_call_error, call_err_host_unsupported}
use criteria_go_adapter_sdk.Bridge.Payload.{Codec, AdapterToolCall, validate}
use criteria_go_adapter_sdk.Bridge.Call.{
  Context, expired, is_past_deadline, Sink, returned, refused, sent, issue, await, resume, expire,
  call_adapter_tool,
}

-- The pieces of a bridge that a write to the heap leaves alone.
same-unsupported :
    (b b' : Bridge) (heap : Option (List Entry))
    → with_heap b heap ≡ some b'
    → b'.unsupported ≡ b.unsupported
same-unsupported b b' none h = cc
same-unsupported b b' (some heap) h = ground arith

cache-contains :
    (s t : String) (ts : List String)
    → contains s ts ≡ true
    → contains s (if contains t ts then ts else t ∷ ts) ≡ true
cache-contains s t ts h = ground arith

cached_self :
    (s : String) (ts : List String) → contains s (if contains s ts then ts else s ∷ ts) ≡ true
cached_self s ts = ground (arith, eq_iff s s, eq_refl s)

mark_granted-unsupported :
    (k : String) (b : Bridge) → (mark_granted k b).unsupported ≡ b.unsupported
unfolding mark_granted
mark_granted-unsupported k b = elim (Option-cases (lookup k b.pending)) [
  | inl e ↦ rw (e, mark_granted)
  | inr (q, e) ↦ rw (e, mark_granted)
]

into-unsupported : (b b' : Bridge) → some b ≡ some b' → b'.unsupported ≡ b.unsupported
into-unsupported b b' h = ground arith

route_cancel-unsupported :
    (c : PermissionCancel) (b b' : Bridge)
    → route_cancel c b ≡ some b'
    → b'.unsupported ≡ b.unsupported
unfolding route_cancel
route_cancel-unsupported c b b' h = elim (Option-cases (lookup c.request_id b.pending)) [
  | inl e ↦ into-unsupported b b' (rw (e, route_cancel) at h)
  | inr (q, e) ↦
      same-unsupported (record b { pending = delete c.request_id b.pending }) b'
        (close_done (set_cancelled c) q b.heap) (rw (e, route_cancel) at h)
]

route_result-unsupported :
    (r : ToolCallResult) (b b' : Bridge)
    → route_result r b ≡ some b'
    → b'.unsupported ≡ b.unsupported
unfolding route_result
route_result-unsupported r b b' h = elim (Option-cases (lookup r.request_id b.pending)) [
  | inl e ↦ into-unsupported b b' (rw (e, route_result) at h)
  | inr (q, e) ↦ elim (Bool-cases (is_terminal r)) [
    | inl last ↦
        same-unsupported (record b { pending = delete r.request_id b.pending }) b'
          (close_done (add_fragment r) q b.heap) (rw last at (rw (e, route_result) at h))
    | inr more ↦
        into-unsupported (record b { heap = modify (add_fragment r) q b.heap }) b'
          (rw more at (rw (e, route_result) at h))
  ]
]

close_one-unsupported :
    (q : ℕ) (b b' : Bridge) → close_one q b ≡ some b' → b'.unsupported ≡ b.unsupported
unfolding close_one
close_one-unsupported q b b' h = elim (Bool-cases (has_pointer q b.closing)) [
  | inl e ↦
      same-unsupported (record b { closing = drop_pointer q b.closing }) b'
        (close_done set_err q b.heap) (rw e at h)
  | inr e ↦ into-unsupported b b' (rw e at h)
]

-- No critical section takes a session out of the cache.
step-unsupported :
    (sid : String) (op : Op) (b b' : Bridge)
    → step op b ≡ some b'
    → session_unsupported sid b ≡ true
    → session_unsupported sid b' ≡ true
unfolding step session_unsupported register remove take_grant cache_unsupported collect
step-unsupported sid (registers k) b b' h u = rw (into-unsupported _ b' h) u
step-unsupported sid (removes k) b b' h u = rw (into-unsupported _ b' h) u
step-unsupported sid (takes_grant k) b b' h u = rw (into-unsupported _ b' h) u
step-unsupported sid (caches k) b b' h u =
    rw (into-unsupported _ b' h) (cache-contains sid k b.unsupported u)
step-unsupported sid (grants k) b b' h u =
    rw (into-unsupported _ b' h, mark_granted-unsupported k b) u
step-unsupported sid (cancels c) b b' h u = rw (route_cancel-unsupported c b b' h) u
step-unsupported sid (results r) b b' h u = rw (route_result-unsupported r b b' h) u
step-unsupported sid collects b b' h u = rw (into-unsupported _ b' h) u
step-unsupported sid (closes q) b b' h u = rw (close_one-unsupported q b b' h) u

run-unsupported :
    (sid : String) (ops : List Op) (b b' : Bridge)
    → run ops b ≡ some b'
    → session_unsupported sid b ≡ true
    → session_unsupported sid b' ≡ true
unfolding run
run-unsupported sid [] b b' h u = let e : b ≡ b' = ground arith in rw (← e) u
run-unsupported sid (op ∷ ops) b b' h u = elim (Option-cases (step op b)) [
  | inl e ↦ cc (rw (e, ◌>>=◌) at h)
  | inr (c, e) ↦ run-unsupported sid ops c b' (rw (e, ◌>>=◌) at h) (step-unsupported sid op b c e u)
]

module _ (x : Codec) where
  open x use {Any, Struct}

  expire-cached :
      (call : AdapterToolCall Any) (id : String) (e : CtxErr) (granted : Bool) (b : Bridge)
      (code : String)
      → (expire x call id e granted b).1 ≡ returned (err (tool_call_error code))
      → session_unsupported call.session_id (expire x call id e granted b).0 ≡ true
  unfolding session_unsupported cache_unsupported
  expire-cached call id e granted b code h = elim (Bool-cases (granted && is_past_deadline e)) [
    | inl t ↦ rw t (cached_self call.session_id b.unsupported)
    | inr t ↦ ground arith
  ]

  resume-cached :
      (call : AdapterToolCall Any) (id : String) (p : ℕ) (wait : Option ℕ)
      (event : ExecuteEvent Struct) (env : List Op) (e : CtxErr) (b b' : Bridge) (code : String)
      → resume x call id env (expired e) (b, sent p wait event)
        ≡ some (b', returned (err (tool_call_error code)))
      → session_unsupported call.session_id b' ≡ true
  unfolding await
  resume-cached call id p wait event env e b b' code h = elim (Option-cases (run env b)) [
    | inl none_left ↦ cc (rw (none_left, resume) at h)
    | inr (c, ran) ↦ after (take_grant id c).1 (take_grant id c).0 (rw (ran, resume) at h)
  ]
    where
      after :
          (granted : Bool) (c : Bridge)
          → some (expire x call id e granted c) ≡ some (b', returned (err (tool_call_error code)))
          → session_unsupported call.session_id b' ≡ true
      after granted c h =
          let pair : expire x call id e granted c ≡ (b', returned (err (tool_call_error code))) =
            ground arith in
          subst (λ t. session_unsupported call.session_id t.0 ≡ true) pair
            (expire-cached call id e granted c code (ap (λ t. t.1) pair))

  -- A call that times out as host_unsupported marks its session: from then on, whatever happens in
  -- between, each valid call of that session is refused as host_unsupported, with nothing sent and
  -- the bridge unchanged.
  pub call-fails_fast :
      (ctx : Option Context) (sink : Option (Sink x)) (next_sink : Sink x) (next : Context)
      (call again : AdapterToolCall Any) (id next_id : String) (now later : ℕ)
      (env between : List Op) (e : CtxErr) (b b' c d : Bridge) (p : ℕ) (wait : Option ℕ)
      (event : ExecuteEvent Struct) (code : String)
      → issue x ctx sink call id now b ≡ (b', sent p wait event)
      → call_adapter_tool x ctx sink call id now env (expired e) b
        ≡ some (c, returned (err (tool_call_error code)))
      → run between c ≡ some d
      → again.session_id ≡ call.session_id
      → validate again ≡ ok tt
      → issue x (some next) (some next_sink) again next_id later d
        ≡ (d, refused (tool_call_error call_err_host_unsupported))
  unfolding call_adapter_tool issue
  call-fails_fast ctx sink next_sink next call again id next_id now later env between e b b' c d p
        wait event code h timed ran same valid =
      let marked = resume-cached call id p wait event env e b' c code (rw h at timed) in
      let still = run-unsupported call.session_id between c d ran marked in
      rw (valid, issue) (rw same (rw still))
