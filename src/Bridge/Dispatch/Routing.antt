-- ===== src/Bridge/Dispatch/Routing.antt =====
-- The dispatch loop and its end as sequences of the bridge's critical sections.
use criteria_go_adapter_sdk.Base.{
  ℕ, String, ◌≡◌, ◌∙◌, refl, sym, ap, List, [], ◌∷◌, ◌++◌, Option, none, some, Result, ok, err,
  Option-cases, Bool-cases, inl, inr, if◌then◌else◌, ◌==◌,
}
use criteria_go_adapter_sdk.Base.Panic.{◌>>=◌}
use criteria_go_adapter_sdk.Wire.{
  PermissionEvent, request, cancel, tool_call_result, unset, PermissionDecision,
}
use criteria_go_adapter_sdk.Permissions.{RecvError, Served}
use criteria_go_adapter_sdk.Bridge.{Bridge, pointers, collect, close_one}
use criteria_go_adapter_sdk.Bridge.Step.{Op, grants, cancels, results, collects, closes, step, run}
use criteria_go_adapter_sdk.Bridge.Dispatch.{
  close_each, close_all, route, answer, send_result, before, lift, dispatch, Turn, after_send,
  after_recv,
}

abbrev pub ops_of : PermissionEvent → List Op
ops_of (request id) = if id == "" then [] else grants id ∷ []
ops_of (cancel c) = cancels c ∷ []
ops_of (tool_call_result r) = results r ∷ []
ops_of unset = []

-- The sections behind a Send and behind a Recv, with those of the others.
abbrev pub send_ops : PermissionEvent → Option String → List Op → List Op
send_ops ev (some e) rest = []
send_ops ev none rest = ops_of ev ++ rest

abbrev pub recv_ops : Result RecvError PermissionEvent → Option String → List Op → List Op → List Op
recv_ops (err e) send between rest = []
recv_ops (ok ev) send between rest = between ++ send_ops ev (send_result (answer ev) send) rest

-- All sections that run until the loop returns, its own and those of the others.
abbrev pub sections : List Turn → List Op
sections [] = []
sections (t ∷ ts) = t.waiting ++ recv_ops t.round.recv t.round.send t.between (sections ts)

-- The sections that run while the entries are closed.
abbrev pub closing_ops : (ℕ → List Op) → List ℕ → List Op
closing_ops env [] = []
closing_ops env (p ∷ ps) = env p ++ closes p ∷ closing_ops env ps

pub run-append : (ops more : List Op) (b : Bridge) → run (ops ++ more) b ≡ (run ops b >>= run more)
unfolding run
run-append [] more b = refl
run-append (op ∷ ops) more b = elim (Option-cases (step op b)) [
  | inl e ↦ rw (e, ◌>>=◌)
  | inr (c, e) ↦ rw (e, ◌>>=◌) (run-append ops more c)
]

bind_some : (r : Option Bridge) → r ≡ (r >>= some)
bind_some none = refl
bind_some (some b) = refl

pub route-run : (ev : PermissionEvent) (b : Bridge) → route ev b ≡ run (ops_of ev) b
unfolding route run step
route-run (request id) b = elim (Bool-cases (id == "")) [ inl e ↦ rw e | inr e ↦ rw e ]
route-run (cancel c) b = bind_some (step (cancels c) b)
route-run (tool_call_result r) b = bind_some (step (results r) b)
route-run unset b = refl

lift-lift :
    (ds : List PermissionDecision) (r : Option (Bridge × Served))
    → lift (λ t. t.0) (lift (before ds) r) ≡ lift (λ t. t.0) r
lift-lift ds none = refl
lift-lift ds (some (b, s)) = refl

abbrev bridge_of : Bridge × Served → Bridge
bridge_of t = t.0

run_nil : (b : Bridge) → run [] b ≡ some b
unfolding run
run_nil b = refl

bind_ext {ℓ κ} :
    {A : Type ℓ} {B : Type κ} (r : Option A) (f g : A → Option B)
    → ((a : A) → f a ≡ g a)
    → (r >>= f) ≡ (r >>= g)
bind_ext none f g h = refl
bind_ext (some a) f g h = h a

lift-bind {ℓ κ μ} :
    {A : Type ℓ} {B : Type κ} {C : Type μ} (f : B → C) (r : Option A) (g : A → Option B)
    → lift f (r >>= g) ≡ (r >>= λ a. lift f (g a))
lift-bind f none g = refl
lift-bind f (some a) g = refl

-- A stretch of sections, and then a part that does what some sections do.
then-run :
    (ops more : List Op) (g : Bridge → Option (Bridge × Served)) (b : Bridge)
    → ((c : Bridge) → lift bridge_of (g c) ≡ run more c)
    → lift bridge_of (run ops b >>= g) ≡ run (ops ++ more) b
then-run ops more g b h =
    lift-bind bridge_of (run ops b) g
    ∙ (bind_ext (run ops b) (λ c. lift bridge_of (g c)) (run more) h ∙ sym (run-append ops more b))

module _ (loop : Bridge → Option (Bridge × Served)) (rest : List Op)
    (ih : (c : Bridge) → lift bridge_of (loop c) ≡ run rest c) where
  after_send-run :
      (ev : PermissionEvent) (o : Option String) (b : Bridge)
      → lift bridge_of (after_send ev o loop b) ≡ run (send_ops ev o rest) b
  after_send-run ev (some e) b = sym (run_nil b)
  after_send-run ev none b =
      ap (λ r. lift bridge_of (r >>= λ c. lift (before (answer ev)) (loop c))) (route-run ev b)
      ∙ then-run (ops_of ev) rest (λ c. lift (before (answer ev)) (loop c)) b
          (λ c. lift-lift (answer ev) (loop c) ∙ ih c)

  after_recv-run :
      (recv : Result RecvError PermissionEvent) (send : Option String) (between : List Op)
      (b : Bridge)
      → lift bridge_of (after_recv recv send between loop b)
        ≡ run (recv_ops recv send between rest) b
  after_recv-run (err e) send between b = sym (run_nil b)
  after_recv-run (ok ev) send between b =
      let o = send_result (answer ev) send in
      then-run between (send_ops ev o rest) (after_send ev o loop) b (after_send-run ev o)

-- What the loop does to the bridge is what its sections and those of the others do.
pub dispatch-run :
    (ts : List Turn) (b : Bridge) → lift (λ t. t.0) (dispatch ts b) ≡ run (sections ts) b
unfolding dispatch
dispatch-run [] b = sym (run_nil b)
dispatch-run (t ∷ ts) b =
    then-run t.waiting (recv_ops t.round.recv t.round.send t.between (sections ts)) _ b (
      after_recv-run (dispatch ts) (sections ts) (dispatch-run ts) t.round.recv t.round.send
        t.between)

close_each-run :
    (env : ℕ → List Op) (ps : List ℕ) (b : Bridge)
    → close_each env ps b ≡ run (closing_ops env ps) b
unfolding run step
close_each-run env [] b = refl
close_each-run env (p ∷ ps) b =
    bind_ext (run (env p) b) _ (run (closes p ∷ closing_ops env ps))
      (λ c. bind_ext (close_one p c) _ _ (close_each-run env ps))
    ∙ sym (run-append (env p) (closes p ∷ closing_ops env ps) b)

pub close_all-run :
    (env : ℕ → List Op) (b : Bridge)
    → close_all env b ≡ run (collects ∷ closing_ops env (pointers b.pending)) b
unfolding close_all run step
close_all-run env b = close_each-run env (pointers b.pending) (collect b)
