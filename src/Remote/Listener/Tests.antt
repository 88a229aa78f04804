-- ===== src/Remote/Listener/Tests.antt =====
-- One connection with the goroutine of serveRemoteOnce, two calls of Accept and a Close.
use criteria_go_adapter_sdk.Base.{
  All-get_elem?, false, true, List, [], ◌∷◌, ◌≡◌, ◌≢◌, refl, arith, All,
}
use criteria_go_adapter_sdk.Remote.Listener.{
  SingleConnListener, CloseSignalConn, Thread, move, moves, accept, close_listener, signal_once,
  close_wrapped, System, picks, Run, start, later, serving,
}
use criteria_go_adapter_sdk.Remote.Listener.Safe.{IsSafe, Run-IsSafe}
use criteria_go_adapter_sdk.Remote.Listener.Settled.{IsSettled, has_returned, Run-settled}

abbrev goroutines : List Thread
goroutines = Thread.watching ∷ Thread.accepting ∷ Thread.accepting ∷ Thread.closing_conn ∷ []

-- One Accept has the connection, the other waits.
abbrev waiting : System
waiting = record {
  threads = Thread.watching ∷ Thread.accepted ∷ Thread.blocked ∷ Thread.closing_conn ∷ [];
  listener = record { used = true; closed = false };
  conn = record { once = false; done = false; closes = 0 };
}

abbrev ended : System
ended = record {
  threads = Thread.closed ∷ Thread.accepted ∷ Thread.refused ∷ Thread.conn_closed ∷ [];
  listener = record { used = true; closed = true };
  conn = record { once = true; done = true; closes = 1 };
}

waiting-Run : Run (serving goroutines) 2 waiting
unfolding move accept
waiting-Run =
    later (later start (picks 1 Thread.accepting Thread.accepted refl refl))
      (picks 2 Thread.accepting Thread.blocked refl refl)

ended-Run : Run (serving goroutines) 7 ended
unfolding move close_listener signal_once close_wrapped
ended-Run =
    later
      (later
        (later
          (later (later waiting-Run (picks 3 Thread.closing_conn Thread.signalled refl refl))
            (picks 0 Thread.watching Thread.closing refl refl))
          (picks 0 Thread.closing Thread.closed refl refl))
        (picks 3 Thread.signalled Thread.conn_closed refl refl))
      (picks 2 Thread.blocked Thread.refused refl refl)

returned-IsSettled :
    (t u : Thread) (l m : SingleConnListener) (c d : CloseSignalConn)
    → has_returned t ≡ true
    → move t l c ≢ moves u m d
unfolding move
returned-IsSettled t u l m c d h e = grind arith

ended-IsSettled : IsSettled ended
ended-IsSettled i t u l c e = returned-IsSettled t u ended.listener l ended.conn c (
    All-get_elem? (λ x. has_returned x ≡ true) ended.threads i t (refl, (refl, (refl, (refl, tt))))
      e)

Run-IsSafe_example : IsSafe waiting
Run-IsSafe_example = Run-IsSafe goroutines (refl, (refl, (refl, (refl, tt)))) 2 waiting waiting-Run

Run-settled_example : All (λ t. has_returned t ≡ true) ended.threads
Run-settled_example =
    Run-settled goroutines (refl, (refl, (refl, (refl, tt)))) 3 0 refl refl 7 ended ended-Run
      ended-IsSettled
