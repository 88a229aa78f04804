-- ===== src/Remote/Listener/Safe.antt =====
-- What one move changes, and what holds of the listener and the connection in every state of a run.
use criteria_go_adapter_sdk.Base.{
  one_if, total, total-set, All-map, All, All-set, ℕ, ◌+◌, Bool, true, false, List, [], ◌∷◌, ◌≡◌,
  ◌≢◌, refl, inl, inr, arith, Bool-cases, All-get_elem?,
}
use criteria_go_adapter_sdk.Remote.Listener.{
  SingleConnListener, CloseSignalConn, Thread, move, moves, panics, accept, close_listener,
  signal_once, close_wrapped, System, Step, picks, Run, start, later, serving,
}

abbrev pub is_accepted : Thread → ℕ
is_accepted t = elim t [ Thread.accepted ↦ 1 | _ ↦ 0 ]

abbrev pub is_conn_closed : Thread → ℕ
is_conn_closed t = elim t [ Thread.conn_closed ↦ 1 | _ ↦ 0 ]

-- What a goroutine has seen.
abbrev pub Seen : SingleConnListener → CloseSignalConn → Thread → Type 0
Seen l c t = elim t [
  | Thread.blocked ↦ l.used ≡ true
  | Thread.accepted ↦ l.used ≡ true
  | Thread.refused ↦ l.closed ≡ true
  | Thread.closed ↦ l.closed ≡ true
  | Thread.signalled ↦ c.done ≡ true
  | Thread.conn_closed ↦ c.done ≡ true
  | _ ↦ Unit
]

-- A move, as its effect on what the invariant counts.
pub record Effect (t u : Thread) (l m : SingleConnListener) (c d : CloseSignalConn) : Type 0 where
  pub used : l.used ≡ true → m.used ≡ true
  pub closed : l.closed ≡ true → m.closed ≡ true
  pub done : c.done ≡ true → d.done ≡ true
  pub once : d.once ≡ d.done
  pub seen : Seen m d u
  pub accepted : is_accepted u + one_if l.used ≡ is_accepted t + one_if m.used
  pub conn_closed : is_conn_closed u + c.closes ≡ is_conn_closed t + d.closes

module _ (l m : SingleConnListener) (c d : CloseSignalConn) (same : c.once ≡ c.done) where
  move-Effect : (t u : Thread) → Seen l c t → move t l c ≡ moves u m d → Effect t u l m c d
  unfolding move accept close_listener signal_once close_wrapped
  move-Effect Thread.accepting u seen e = elim (Bool-cases l.used) [
    | inl h ↦ ground arith
    | inr h ↦ ground arith
  ]
  move-Effect Thread.blocked u seen e = ground arith
  move-Effect Thread.accepted u seen e = ground arith
  move-Effect Thread.refused u seen e = ground arith
  move-Effect Thread.closing u seen e = ground arith
  move-Effect Thread.closed u seen e = ground arith
  move-Effect Thread.closing_conn u seen e = ground arith
  move-Effect Thread.signalled u seen e = ground arith
  move-Effect Thread.conn_closed u seen e = ground arith
  move-Effect Thread.watching u seen e = ground arith

abbrev pub is_fresh : Thread → Bool
is_fresh t = elim t [
  | Thread.accepting ↦ true
  | Thread.closing ↦ true
  | Thread.closing_conn ↦ true
  | Thread.watching ↦ true
  | _ ↦ false
]

-- No channel is closed twice, the connection is handed out at most once, and each Close of it is passed on.
pub record IsSafe (s : System) : Type 0 where
  pub once_done : s.conn.once ≡ s.conn.done
  pub no_panic : (t : Thread) → move t s.listener s.conn ≢ panics
  pub given_once : total is_accepted s.threads ≡ one_if s.listener.used
  pub passed_on : total is_conn_closed s.threads ≡ s.conn.closes
  pub seen : All (Seen s.listener s.conn) s.threads

move-no_panic :
    (l : SingleConnListener) (c : CloseSignalConn)
    → c.once ≡ c.done
    → (t : Thread) → move t l c ≢ panics
unfolding move accept close_listener signal_once close_wrapped
move-no_panic l c same Thread.accepting e = ground arith
move-no_panic l c same Thread.blocked e = ground arith
move-no_panic l c same Thread.accepted e = ground arith
move-no_panic l c same Thread.refused e = ground arith
move-no_panic l c same Thread.closing e = ground arith
move-no_panic l c same Thread.closed e = ground arith
move-no_panic l c same Thread.closing_conn e = ground arith
move-no_panic l c same Thread.signalled e = ground arith
move-no_panic l c same Thread.conn_closed e = ground arith
move-no_panic l c same Thread.watching e = ground arith

-- What a goroutine that has not begun counts for.
record Unseen (t : Thread) : Type 0 where
  accepted : is_accepted t ≡ 0
  conn_closed : is_conn_closed t ≡ 0
  seen : (l : SingleConnListener) (c : CloseSignalConn) → Seen l c t

is_fresh-Unseen : (t : Thread) → is_fresh t ≡ true → Unseen t
is_fresh-Unseen Thread.accepting e = record {
  accepted = refl;
  conn_closed = refl;
  seen = λ l c. tt;
}
is_fresh-Unseen Thread.blocked e = cc
is_fresh-Unseen Thread.accepted e = cc
is_fresh-Unseen Thread.refused e = cc
is_fresh-Unseen Thread.closing e = record { accepted = refl; conn_closed = refl; seen = λ l c. tt }
is_fresh-Unseen Thread.closed e = cc
is_fresh-Unseen Thread.closing_conn e = record {
  accepted = refl;
  conn_closed = refl;
  seen = λ l c. tt;
}
is_fresh-Unseen Thread.signalled e = cc
is_fresh-Unseen Thread.conn_closed e = cc
is_fresh-Unseen Thread.watching e = record { accepted = refl; conn_closed = refl; seen = λ l c. tt }

serving-totals :
    (ts : List Thread)
    → All (λ t. is_fresh t ≡ true) ts
    → (total is_accepted ts ≡ 0) × (total is_conn_closed ts ≡ 0)
serving-totals [] h = (refl, refl)
serving-totals (t ∷ ts) h =
    let (a, b) = serving-totals ts h.1 in
    let f = is_fresh-Unseen t h.0 in (omega (arith, a, f.accepted), omega (arith, b, f.conn_closed))

serving-IsSafe : (ts : List Thread) → All (λ t. is_fresh t ≡ true) ts → IsSafe (serving ts)
serving-IsSafe ts h = record {
  once_done = refl;
  no_panic = move-no_panic (serving ts).listener (serving ts).conn refl;
  given_once = (serving-totals ts h).0;
  passed_on = (serving-totals ts h).1;
  seen = All-map ts (λ t e. (is_fresh-Unseen t e).seen (serving ts).listener (serving ts).conn) h;
}

Seen-Effect :
    (l m : SingleConnListener) (c d : CloseSignalConn) (t u v : Thread)
    → Effect t u l m c d
    → Seen l c v
    → Seen m d v
Seen-Effect l m c d t u Thread.accepting e h = tt
Seen-Effect l m c d t u Thread.blocked e h = e.used h
Seen-Effect l m c d t u Thread.accepted e h = e.used h
Seen-Effect l m c d t u Thread.refused e h = e.closed h
Seen-Effect l m c d t u Thread.closing e h = tt
Seen-Effect l m c d t u Thread.closed e h = e.closed h
Seen-Effect l m c d t u Thread.closing_conn e h = tt
Seen-Effect l m c d t u Thread.signalled e h = e.done h
Seen-Effect l m c d t u Thread.conn_closed e h = e.done h
Seen-Effect l m c d t u Thread.watching e h = tt

Step-IsSafe : (s t : System) → IsSafe s → Step s t → IsSafe t
Step-IsSafe s _ h (picks i t u {l} {c} e m) =
    let f =
      move-Effect s.listener l s.conn c h.once_done t u
        (All-get_elem? (Seen s.listener s.conn) s.threads i t h.seen e) m in
    let old = total-set is_accepted s.threads i t u e in
    let closes = total-set is_conn_closed s.threads i t u e in
    record {
      once_done = f.once;
      no_panic = move-no_panic l c f.once;
      given_once = omega (arith, old, f.accepted, h.given_once);
      passed_on = omega (arith, closes, f.conn_closed, h.passed_on);
      seen =
          All-set (Seen l c) s.threads i u
            (All-map s.threads (λ v. Seen-Effect s.listener l s.conn c t u v f) h.seen) f.seen;
    }

module _ (ts : List Thread) (fresh : All (λ t. is_fresh t ≡ true) ts) where
  -- Whatever the goroutines that start by calling Accept, by one of the two Close methods, or by waiting
  -- for the connection's signal, and however they are interleaved: no channel is closed twice, so that
  -- nothing panics; Accept gives the connection to one caller at most; an Accept is refused only when
  -- the listener is closed; each Close of the connection closes the wrapped one and only the first signals.
  pub Run-IsSafe : (n : ℕ) (s : System) → Run (serving ts) n s → IsSafe s
  Run-IsSafe _ _ start = serving-IsSafe ts fresh
  Run-IsSafe _ s (later {n} {t} r p) = Step-IsSafe t s (Run-IsSafe n t r) p
