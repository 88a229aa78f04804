-- ===== src/Remote/Listener/Settled.antt =====
-- How the goroutines around one connection end: once the connection has been closed none of them is left
-- waiting.
use criteria_go_adapter_sdk.Base.{
  get_elem?-set_keeps, All-pointwise, All-get_elem?, All, ℕ, Bool, true, false, List, some, ◌≡◌,
  ◌≢◌, refl, ◌⊎◌, inl, inr, get_elem?, arith,
}
use criteria_go_adapter_sdk.Remote.Listener.{
  waits, SingleConnListener, CloseSignalConn, Thread, Move, move, moves, panics, accept,
  close_listener, signal_once, close_wrapped, System, picks, Run, start, later, serving,
}
use criteria_go_adapter_sdk.Remote.Listener.Safe.{is_fresh, IsSafe, Run-IsSafe, Seen}

-- Nobody can move.
abbrev pub IsSettled : System → Type 0
IsSettled s =
    (i : ℕ) (t u : Thread) (l : SingleConnListener) (c : CloseSignalConn)
    → get_elem? s.threads i ≡ some t
    → move t s.listener s.conn ≢ moves u l c

-- The goroutine of serveRemoteOnce, wherever it stands.
abbrev pub is_watcher : Thread → Bool
is_watcher t = elim t [
  | Thread.watching ↦ true
  | Thread.closing ↦ true
  | Thread.closed ↦ true
  | _ ↦ false
]

abbrev pub closes_conn : Thread → Bool
closes_conn t = elim t [
  | Thread.closing_conn ↦ true
  | Thread.signalled ↦ true
  | Thread.conn_closed ↦ true
  | _ ↦ false
]

abbrev pub has_returned : Thread → Bool
has_returned t = elim t [
  | Thread.accepted ↦ true
  | Thread.refused ↦ true
  | Thread.closed ↦ true
  | Thread.conn_closed ↦ true
  | _ ↦ false
]

Move-cases :
    (x : Move)
    → (x ≡ waits)
      ⊎ ((x ≡ panics)
          ⊎ ((u : Thread) × (m : SingleConnListener) × (d : CloseSignalConn) × (x ≡ moves u m d)))
Move-cases waits = inl refl
Move-cases panics = inr (inl refl)
Move-cases (moves u m d) = inr (inr (u, m, d, refl))

module _ (l m : SingleConnListener) (c d : CloseSignalConn) where
  move-is_watcher :
      (t u : Thread) → move t l c ≡ moves u m d → is_watcher t ≡ true → is_watcher u ≡ true
  unfolding move accept close_listener signal_once close_wrapped
  move-is_watcher t u e h = elim t [
    | Thread.watching ↦ ground arith
    | Thread.closing ↦ ground arith
    | _ ↦ ground arith
  ]

  move-closes_conn :
      (t u : Thread) → move t l c ≡ moves u m d → closes_conn t ≡ true → closes_conn u ≡ true
  unfolding move accept close_listener signal_once close_wrapped
  move-closes_conn t u e h = elim t [
    | Thread.closing_conn ↦ ground arith
    | Thread.signalled ↦ ground arith
    | _ ↦ ground arith
  ]

-- A goroutine that passes a test stands at index i.
abbrev pub Has : (Thread → Bool) → ℕ → System → Type 0
Has p i s = (t : Thread) × ((get_elem? s.threads i ≡ some t) × (p t ≡ true))

module _ (l : SingleConnListener) (c : CloseSignalConn) (same : c.once ≡ c.done) where
  move-waits :
      (t : Thread)
      → move t l c ≢ panics
      → ((u : Thread) (m : SingleConnListener) (d : CloseSignalConn) → move t l c ≢ moves u m d)
      → move t l c ≡ waits
  move-waits t safe stuck = elim (Move-cases (move t l c)) [
    | inl e ↦ e
    | inr (inl e) ↦ absurd (safe e)
    | inr (inr (u, m, d, e)) ↦ absurd (stuck u m d e)
  ]

  -- The three kinds of goroutine that have come to a stop.
  conn_closed-done :
      (t : Thread) → move t l c ≡ waits → closes_conn t ≡ true → Seen l c t → c.done ≡ true
  unfolding move accept close_listener signal_once close_wrapped
  conn_closed-done Thread.accepting e h k = cc
  conn_closed-done Thread.blocked e h k = cc
  conn_closed-done Thread.accepted e h k = cc
  conn_closed-done Thread.refused e h k = cc
  conn_closed-done Thread.closing e h k = cc
  conn_closed-done Thread.closed e h k = cc
  conn_closed-done Thread.closing_conn e h k = ground arith
  conn_closed-done Thread.signalled e h k = k
  conn_closed-done Thread.conn_closed e h k = k
  conn_closed-done Thread.watching e h k = cc

  watcher-closed :
      (t : Thread)
      → move t l c ≡ waits
      → is_watcher t ≡ true
      → c.done ≡ true
      → Seen l c t
      → l.closed ≡ true
  unfolding move accept close_listener signal_once close_wrapped
  watcher-closed Thread.accepting e h k seen = cc
  watcher-closed Thread.blocked e h k seen = cc
  watcher-closed Thread.accepted e h k seen = cc
  watcher-closed Thread.refused e h k seen = cc
  watcher-closed Thread.closing e h k seen = ground arith
  watcher-closed Thread.closed e h k seen = seen
  watcher-closed Thread.closing_conn e h k seen = cc
  watcher-closed Thread.signalled e h k seen = cc
  watcher-closed Thread.conn_closed e h k seen = cc
  watcher-closed Thread.watching e h k seen = ground arith

  waits-has_returned :
      (t : Thread) → move t l c ≡ waits → c.done ≡ true → l.closed ≡ true → has_returned t ≡ true
  unfolding move accept close_listener signal_once close_wrapped
  waits-has_returned Thread.accepting e h k = ground arith
  waits-has_returned Thread.blocked e h k = ground arith
  waits-has_returned Thread.accepted e h k = ground arith
  waits-has_returned Thread.refused e h k = ground arith
  waits-has_returned Thread.closing e h k = ground arith
  waits-has_returned Thread.closed e h k = ground arith
  waits-has_returned Thread.closing_conn e h k = ground arith
  waits-has_returned Thread.signalled e h k = ground arith
  waits-has_returned Thread.conn_closed e h k = ground arith
  waits-has_returned Thread.watching e h k = ground arith

module _ (s : System) (safe : IsSafe s) (settled : IsSettled s) where
  waits_at :
      (i : ℕ) (t : Thread) → get_elem? s.threads i ≡ some t → move t s.listener s.conn ≡ waits
  waits_at i t e =
      move-waits s.listener s.conn safe.once_done t (safe.no_panic t) (λ u m d. settled i t u m d e)

  Seen-at : (i : ℕ) (t : Thread) → get_elem? s.threads i ≡ some t → Seen s.listener s.conn t
  Seen-at i t e = All-get_elem? (Seen s.listener s.conn) s.threads i t safe.seen e

  settled-returned :
      (i w : ℕ)
      → Has closes_conn i s
      → Has is_watcher w s
      → All (λ t. has_returned t ≡ true) s.threads
  settled-returned i w (t, (e, h)) (v, (f, k)) =
      let l = s.listener in
      let c = s.conn in
      let same = safe.once_done in
      let done = conn_closed-done l c same t (waits_at i t e) h (Seen-at i t e) in
      let closed = watcher-closed l c same v (waits_at w v f) k done (Seen-at w v f) in
      All-pointwise _ s.threads
        (λ j x g. waits-has_returned l c same x (waits_at j x g) done closed)

module _ (ts : List Thread) (fresh : All (λ t. is_fresh t ≡ true) ts) where
  Run-keeps :
      (p : Thread → Bool)
      → ((l m : SingleConnListener) (c d : CloseSignalConn) (t u : Thread)
          → move t l c ≡ moves u m d
          → p t ≡ true
          → p u ≡ true)
      → (n : ℕ) (s : System) → Run (serving ts) n s
      → (i : ℕ) → Has p i (serving ts)
      → Has p i s
  Run-keeps p k _ _ start i h = h
  Run-keeps p k _ _ (later {n} {t = s} r (picks j t u {l} {c} e m)) i h =
      let (v, (f, q)) = Run-keeps p k n s r i h in
      get_elem?-set_keeps (λ x. p x ≡ true) s.threads j i t v u e f q
        (k s.listener l s.conn c t u m)

-- When the connection's Close is called by one of the goroutines and the goroutine of serveRemoteOnce
-- waits for its signal, then a run that cannot go on has left nobody waiting: every Accept and
-- every Close has returned.
pub Run-settled :
    (ts : List Thread)
    → All (λ t. is_fresh t ≡ true) ts
    → (i w : ℕ) → get_elem? ts i ≡ some Thread.closing_conn
    → get_elem? ts w ≡ some Thread.watching
    → (n : ℕ) (s : System) → Run (serving ts) n s
    → IsSettled s
    → All (λ t. has_returned t ≡ true) s.threads
Run-settled ts fresh i w e f n s r settled =
    settled-returned s (Run-IsSafe ts fresh n s r) settled i w
      (Run-keeps ts fresh closes_conn move-closes_conn n s r i (Thread.closing_conn, (e, refl)))
      (Run-keeps ts fresh is_watcher move-is_watcher n s r w (Thread.watching, (f, refl)))
