-- ===== src/Bridge/Dispatch/Acks.antt =====
-- What the dispatch loop answers on the stream.
use criteria_go_adapter_sdk.Bridge.Step.{Op, run}
use criteria_go_adapter_sdk.Base.{
  String, ◌≡◌, ◌∙◌, refl, ap, List, [], ◌∷◌, none, some, arith, Bool-cases, inl, inr, if◌then◌else◌,
  ◌==◌, ◌⊎◌, sym, subst, ok, err, Option, ℕ,
}
use criteria_go_adapter_sdk.Base.Panic.{◌>>=◌}
use criteria_go_adapter_sdk.Wire.{PermissionEvent, request, cancel, tool_call_result, unset}
use criteria_go_adapter_sdk.Permissions.{
  RecvError, Served, with_code, code_canceled, code_ok, code_unimplemented, code_other, plain, eof,
}
use criteria_go_adapter_sdk.Permissions.Acks.{heard, ended_by, acks_of, Returns}
use criteria_go_adapter_sdk.Bridge.{Bridge}
use criteria_go_adapter_sdk.Bridge.Invariant.{Inv}
use criteria_go_adapter_sdk.Bridge.Safety.{Safe, run-Safe}
use criteria_go_adapter_sdk.Bridge.Dispatch.{
  route, loop_end, answer, send_result, before, dispatch, permissions, Turn, after_send, after_recv,
  lift,
}
use criteria_go_adapter_sdk.Bridge.Dispatch.Routing.{ops_of, route-run}
use criteria_go_adapter_sdk.Bridge.Dispatch.Total.{deferred-total}

-- The ids that the loop acknowledges: those of the requests that carry one.
abbrev pub granted_ids : List PermissionEvent → List String
granted_ids [] = []
granted_ids (request id ∷ evs) = if id == "" then granted_ids evs else id ∷ granted_ids evs
granted_ids (_ ∷ evs) = granted_ids evs

-- A turn in which the host sends an event and a Send goes through, and the turn in which the stream ends.
pub record Heard : Type 0 where
  pub event : PermissionEvent
  pub waiting : List Op
  pub between : List Op

abbrev pub heard_turn : Heard → Turn
heard_turn h = record { round = heard h.event; waiting = h.waiting; between = h.between }

abbrev pub last_turn : RecvError → List Op → Turn
last_turn e waiting = record { round = ended_by e; waiting = waiting; between = [] }

abbrev pub stream : List Heard → RecvError → List Op → List Turn → List Turn
stream [] e waiting rest = last_turn e waiting ∷ rest
stream (h ∷ hs) e waiting rest = heard_turn h ∷ stream hs e waiting rest

abbrev pub events_of : List Heard → List PermissionEvent
events_of [] = []
events_of (h ∷ hs) = h.event ∷ events_of hs

-- io.EOF, or a status of Canceled or OK.
abbrev pub IsStreamEnd : RecvError → Type 0
IsStreamEnd e = (e ≡ eof) ⊎ ((e ≡ with_code code_canceled) ⊎ (e ≡ with_code code_ok))

loop_end-Returns : (e : RecvError) → Returns IsStreamEnd e (loop_end e)
loop_end-Returns eof = inl (refl, inl refl)
loop_end-Returns (with_code code_canceled) = inl (refl, inr (inl refl))
loop_end-Returns (with_code code_ok) = inl (refl, inr (inr refl))
loop_end-Returns (with_code code_unimplemented) = inr (refl, λ h. ground arith)
loop_end-Returns (with_code (code_other n)) = inr (refl, λ h. ground arith)
loop_end-Returns (plain s) = inr (refl, λ h. ground arith)

acked : List PermissionEvent → RecvError → Served
acked evs e = record { decisions = acks_of (granted_ids evs); ending = loop_end e }

route-total : (ev : PermissionEvent) (b : Bridge) → Inv b → Safe (route ev b)
route-total ev b i = rw (route-run ev b) (run-Safe (ops_of ev) b i)

heard-sends : (ev : PermissionEvent) → send_result (answer ev) none ≡ none
heard-sends (request id) = ground arith
heard-sends (cancel c) = refl
heard-sends (tool_call_result r) = refl
heard-sends unset = refl

before-acked :
    (ev : PermissionEvent) (evs : List PermissionEvent) (e : RecvError) (b : Bridge)
    → (before (answer ev) (b, acked evs e)).1 ≡ acked (ev ∷ evs) e
unfolding acked
before-acked (request id) evs e b = elim (Bool-cases (id == "")) [ inl t ↦ rw t | inr t ↦ rw t ]
before-acked (cancel c) evs e b = refl
before-acked (tool_call_result r) evs e b = refl
before-acked unset evs e b = refl

-- One turn that is heard, from what its three stretches of sections do.
heard_lem :
    (h : Heard) (ts : List Turn) (b c d x : Bridge) (r : Option (Bridge × Served))
    → run h.waiting b ≡ some c
    → run h.between c ≡ some d
    → route h.event d ≡ some x
    → dispatch ts x ≡ r
    → dispatch (heard_turn h ∷ ts) b ≡ lift (before (answer h.event)) r
unfolding dispatch
heard_lem h ts b c d x r waited between routed rest =
    ap (λ o. o >>= after_recv (ok h.event) none h.between (dispatch ts)) waited
    ∙ (ap (λ o. o >>= after_send h.event (send_result (answer h.event) none) (dispatch ts)) between
        ∙ (ap (λ o. after_send h.event o (dispatch ts) d) (heard-sends h.event)
            ∙ (ap (λ o. o >>= λ y. lift (before (answer h.event)) (dispatch ts y)) routed
                ∙ ap (lift (before (answer h.event))) rest)))

last_lem :
    (e : RecvError) (waiting : List Op) (rest : List Turn) (b c : Bridge)
    → run waiting b ≡ some c
    → dispatch (last_turn e waiting ∷ rest) b ≡ some (c, acked [] e)
unfolding dispatch acked
last_lem e waiting rest b c waited =
    ap (λ o. o >>= after_recv (err e) none [] (dispatch rest)) waited

dispatch-acks :
    (hs : List Heard) (e : RecvError) (waiting : List Op) (rest : List Turn) (b : Bridge)
    → Inv b
    → (c : Bridge) × (dispatch (stream hs e waiting rest) b ≡ some (c, acked (events_of hs) e))
      × Inv c
dispatch-acks [] e waiting rest b i =
    let (c, waited, j) = run-Safe waiting b i in (c, last_lem e waiting rest b c waited, j)
dispatch-acks (h ∷ hs) e waiting rest b i =
    let (c, waited, j) = run-Safe h.waiting b i in
    let (d, between, k) = run-Safe h.between c j in
    let (x, routed, l) = route-total h.event d k in
    let (y, served, n) = dispatch-acks hs e waiting rest x l in
    (
      y,
      heard_lem h (stream hs e waiting rest) b c d x _ waited between routed served
          ∙ ap (λ t. some (y, t)) (before-acked h.event (events_of hs) e y),
      n,
    )

-- Over a healthy stream, and whatever the other goroutines do meanwhile, the loop sends for each grant that
-- carries an id, in order, one decision with that id and the word "allow", and nothing else (no
-- result or denial is answered); it returns nil exactly when the stream ends with io.EOF or a status
-- of Canceled or OK, and the stream's error otherwise; and it leaves the bridge well-formed.
pub permissions-acks :
    (hs : List Heard) (e : RecvError) (waiting : List Op) (rest : List Turn) (dying : List Op)
    (env : ℕ → List Op) (b : Bridge)
    → Inv b
    → (c : Bridge) × (s : Served) × (permissions (stream hs e waiting rest) dying env b
        ≡ some (c, s))
      × (s.decisions ≡ acks_of (granted_ids (events_of hs)))
      × Returns IsStreamEnd e s.ending
      × Inv c
unfolding permissions acked
permissions-acks hs e waiting rest dying env b i =
    let (c, served, j) = dispatch-acks hs e waiting rest b i in
    let ((d, s), closed, k, same) = deferred-total dying env (c, acked (events_of hs) e) j in
    (
      d,
      s,
      rw (served, ◌>>=◌) closed,
      ap (λ t. t.decisions) same,
      subst (Returns IsStreamEnd e) (sym (ap (λ t. t.ending) same)) (loop_end-Returns e),
      k,
    )
