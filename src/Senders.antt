-- ===== src/Senders.antt =====
-- adapterhost/serve.go, grpcExecuteEventServer and grpcLogEventServer: the goroutines that send on one
-- gRPC stream, such as a handler and its heartbeat, interleaved in any order. The stream's own Send, which must
-- not run twice at a time, begins and ends as two moves.
pub mod Orderly
pub mod Delivered
mod Tests
use criteria_go_adapter_sdk.Base.{
  some, ℕ, zero, suc, Bool, true, false, List, [], ◌∷◌, ◌++◌, ◌≡◌, get_elem?, set, if◌then◌else◌,
  num_eq, Option, String, none,
}

-- A goroutine outside of Send, with the mutex, or within the stream's Send.
pub data Phase : Type 0 where
  outside locked inside : Phase

-- The wrapper's state: whether its mutex is held. The stream, as the events whose Send has ended without
-- an error, each with the goroutine that it came from.
pub record EventServer {ℓ} (E : Type ℓ) : Type ℓ where
  pub mu : Bool
  pub stream : List (ℕ × E)

-- The events that a goroutine has still to send, the one being sent first, and those whose Send has
-- returned, each with the error that it returned. A goroutine that gives up on an error has a shorter list.
pub record Sender {ℓ} (E : Type ℓ) : Type ℓ where
  pub phase : Phase
  pub waiting : List E
  pub tried : List (E × Option String)

pub data Move {ℓ} (E : Type ℓ) : Type ℓ where
  waits : Move E
  moves : Sender E → EventServer E → Move E

module _ {ℓ} {E : Type ℓ} where
  -- s.mu.Lock().
  abbrev pub lock : Sender E → EventServer E → Move E
  lock t s = if s.mu then waits else moves (record t { phase = locked }) (record s { mu = true })

  -- What s.stream.Send(evt) puts on the stream when it returns that error, or nil.
  abbrev pub arrives : ℕ → E → Option String → List (ℕ × E)
  arrives i e none = (i, e) ∷ []
  arrives i e (some failure) = []

  -- The end of s.stream.Send(evt), with its result, and the deferred s.mu.Unlock().
  abbrev pub send_ends :
      ℕ → E → List E → List (E × Option String) → Option String → EventServer E → Move E
  send_ends i e es tried result s =
      moves (record { phase = outside; waiting = es; tried = tried ++ (e, result) ∷ [] })
        (record { mu = false; stream = s.stream ++ arrives i e result })

  abbrev pub send :
      ℕ → Phase → List E → List (E × Option String) → Option String → EventServer E → Move E
  send i phase [] tried result s = waits
  send i outside (e ∷ es) tried result s =
      lock (record { phase = outside; waiting = e ∷ es; tried = tried }) s
  send i locked (e ∷ es) tried result s =
      moves (record { phase = inside; waiting = e ∷ es; tried = tried }) s
  send i inside (e ∷ es) tried result s = send_ends i e es tried result s

  -- What goroutine i does next, where `result` is what the stream's Send returns if it returns now.
  unfoldable pub move : ℕ → Sender E → Option String → EventServer E → Move E
  move i t result s = send i t.phase t.waiting t.tried result s

pub record System {ℓ} (E : Type ℓ) : Type ℓ where
  pub senders : List (Sender E)
  pub server : EventServer E

module _ {ℓ} {E : Type ℓ} where
  abbrev pub starts : List (List E) → List (Sender E)
  starts [] = []
  starts (es ∷ rest) = record { phase = outside; waiting = es; tried = [] } ∷ starts rest

  abbrev pub opened : List (List E) → System E
  opened programs = record {
    senders = starts programs;
    server = record { mu = false; stream = [] };
  }

  pub data Step (s : System E) : System E → Type ℓ where
    picks :
        (i : ℕ) (t u : Sender E) {v : EventServer E} (result : Option String)
        → get_elem? s.senders i ≡ some t
        → move i t result s.server ≡ moves u v
        → Step s (record { senders = set s.senders i u; server = v })

  pub data Run (s : System E) : ℕ → System E → Type ℓ where
    start : Run s 0 s
    later : {n : ℕ} {t u : System E} → Run s n t → Step t u → Run s (suc n) u

  -- The events of goroutine i on the stream.
  abbrev pub sent_by : ℕ → List (ℕ × E) → List E
  sent_by i [] = []
  sent_by i ((j, e) ∷ rest) = let es = sent_by i rest in if num_eq i j then e ∷ es else es

-- The heartbeat runner behind its mutex: what is read, and a swap with the runner that was there.
module _ {ℓ} {R : Type ℓ} where
  abbrev pub current_log_heartbeat_runner : R → R
  current_log_heartbeat_runner runner = runner

  abbrev pub set_log_heartbeat_runner : R → R → R × R
  set_log_heartbeat_runner runner new = (new, runner)
