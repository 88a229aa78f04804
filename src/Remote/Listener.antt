-- ===== src/Remote/Listener.antt =====
-- adapterhost/serve_remote.go, the listener and the connection behind one attempt: goroutines that call
-- Accept, the two Close methods, or wait for the connection's signal, interleaved in any order.
pub mod Safe
pub mod Settled
mod Tests
use criteria_go_adapter_sdk.Base.{
  ℕ, zero, suc, ◌+◌, Bool, true, false, List, [], ◌∷◌, Option, none, some, ◌≡◌, get_elem?, set,
  if◌then◌else◌,
}

-- newSingleConnListener's fields; `closed` says whether the channel of that name is closed.
pub record SingleConnListener : Type 0 where
  pub used : Bool
  pub closed : Bool

-- `once` is the sync.Once, `done` whether doneCh is closed, `closes` the calls of the wrapped Close.
pub record CloseSignalConn : Type 0 where
  pub once : Bool
  pub done : Bool
  pub closes : ℕ

-- Where a goroutine stands: `accepting` and `blocked` before and behind the mutex of Accept, `accepted`
-- and `refused` behind its returns, `closing` and `closed` around the listener's Close, `closing_conn`
-- and `conn_closed` around the connection's with `signalled` between its two statements, `watching` on
-- doneCh before the listener's Close.
pub data Thread : Type 0 where
  accepting blocked accepted refused closing closed : Thread
  closing_conn signalled conn_closed watching : Thread

abbrev pub new_single_conn_listener : SingleConnListener
new_single_conn_listener = record { used = false; closed = false }

abbrev pub new_close_signal_conn : CloseSignalConn
new_close_signal_conn = record { once = false; done = false; closes = 0 }

-- Closing a channel that is closed panics.
abbrev pub close_channel : Bool → Option Bool
close_channel true = none
close_channel false = some true

-- The section of Accept under the mutex.
unfoldable pub accept : SingleConnListener → Thread × SingleConnListener
accept l = if l.used then (blocked, l) else (accepted, record l { used = true })

abbrev pub set_closed : SingleConnListener → Option Bool → Option SingleConnListener
set_closed l none = none
set_closed l (some c) = some (record l { closed = c })

unfoldable pub close_listener : SingleConnListener → Option SingleConnListener
close_listener l = if l.closed then some l else set_closed l (close_channel l.closed)

abbrev pub set_done : CloseSignalConn → Option Bool → Option CloseSignalConn
set_done c none = none
set_done c (some d) = some (record c { once = true; done = d })

-- c.once.Do, whose function closes doneCh.
unfoldable pub signal_once : CloseSignalConn → Option CloseSignalConn
signal_once c = if c.once then some c else set_done c (close_channel c.done)

-- c.Conn.Close.
unfoldable pub close_wrapped : CloseSignalConn → CloseSignalConn
close_wrapped c = record c { closes = c.closes + 1 }

-- What a goroutine does next; one that has returned waits for ever.
pub data Move : Type 0 where
  waits panics : Move
  moves : Thread → SingleConnListener → CloseSignalConn → Move

abbrev pub after_accept : Thread × SingleConnListener → CloseSignalConn → Move
after_accept (t, l) c = moves t l c

abbrev pub after_close : Option SingleConnListener → CloseSignalConn → Move
after_close none c = panics
after_close (some l) c = moves closed l c

abbrev pub after_signal : SingleConnListener → Option CloseSignalConn → Move
after_signal l none = panics
after_signal l (some c) = moves signalled l c

unfoldable pub move : Thread → SingleConnListener → CloseSignalConn → Move
move accepting l c = after_accept (accept l) c
move blocked l c = if l.closed then moves refused l c else waits
move accepted l c = waits
move refused l c = waits
move closing l c = after_close (close_listener l) c
move closed l c = waits
move closing_conn l c = after_signal l (signal_once c)
move signalled l c = moves conn_closed l (close_wrapped c)
move conn_closed l c = waits
move watching l c = if c.done then moves closing l c else waits

pub record System : Type 0 where
  pub threads : List Thread
  pub listener : SingleConnListener
  pub conn : CloseSignalConn

abbrev pub serving : List Thread → System
serving ts = record {
  threads = ts;
  listener = new_single_conn_listener;
  conn = new_close_signal_conn;
}

pub data Step (s : System) : System → Type 0 where
  picks :
      (i : ℕ) (t u : Thread) {l : SingleConnListener} {c : CloseSignalConn}
      → get_elem? s.threads i ≡ some t
      → move t s.listener s.conn ≡ moves u l c
      → Step s (record { threads = set s.threads i u; listener = l; conn = c })

-- A run with its number of moves.
pub data Run (s : System) : ℕ → System → Type 0 where
  start : Run s 0 s
  later : {n : ℕ} {t u : System} → Run s n t → Step t u → Run s (suc n) u
