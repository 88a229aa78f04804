-- ===== src/Senders/Tests.antt =====
-- A handler with two lines, and a heartbeat between them, whose send fails.
use criteria_go_adapter_sdk.Base.{
  arith, zero, suc, String, true, false, List, [], ◌∷◌, Option, none, some, ◌≡◌, refl, get_elem?,
}
use criteria_go_adapter_sdk.Senders.{
  Phase, outside, locked, inside, move, Sender, System, picks, Run, start, later, opened,
}
use criteria_go_adapter_sdk.Senders.Orderly.{IsOrderly, Run-IsOrderly}
use criteria_go_adapter_sdk.Senders.Delivered.{IsSettled, Done, Run-delivered}

abbrev programs : List (List String)
programs = ("one" ∷ "two" ∷ []) ∷ ("beat" ∷ []) ∷ []

abbrev at : Phase → List String → List (String × Option String) → Sender String
at phase waiting tried = record { phase = phase; waiting = waiting; tried = tried }

abbrev one_sent : List (String × Option String)
one_sent = ("one", none) ∷ []

abbrev both_sent : List (String × Option String)
both_sent = ("one", none) ∷ ("two", none) ∷ []

abbrev beat_failed : List (String × Option String)
beat_failed = ("beat", some "reset") ∷ []

-- The heartbeat has the mutex, and the handler waits with its second line.
abbrev midway : System String
midway = record {
  senders = at outside ("two" ∷ []) one_sent ∷ at inside ("beat" ∷ []) [] ∷ [];
  server = record { mu = true; stream = (0, "one") ∷ [] };
}

abbrev ended : System String
ended = record {
  senders = at outside [] both_sent ∷ at outside [] beat_failed ∷ [];
  server = record { mu = false; stream = (0, "one") ∷ (0, "two") ∷ [] };
}

midway-Run : Run (opened programs) 5 midway
unfolding move
midway-Run =
    later
      (later
        (later
          (later
            (later start (
              picks 0 (at outside ("one" ∷ "two" ∷ []) []) (at locked ("one" ∷ "two" ∷ []) []) none
                refl refl))
            (picks 0 (at locked ("one" ∷ "two" ∷ []) []) (at inside ("one" ∷ "two" ∷ []) []) none
              refl refl))
          (picks 0 (at inside ("one" ∷ "two" ∷ []) []) (at outside ("two" ∷ []) one_sent) none refl
            refl))
        (picks 1 (at outside ("beat" ∷ []) []) (at locked ("beat" ∷ []) []) none refl refl))
      (picks 1 (at locked ("beat" ∷ []) []) (at inside ("beat" ∷ []) []) none refl refl)

ended-Run : Run (opened programs) 9 ended
unfolding move
ended-Run =
    later
      (later
        (later
          (later midway-Run (
            picks 1 (at inside ("beat" ∷ []) []) (at outside [] beat_failed) (some "reset") refl
              refl))
          (picks 0 (at outside ("two" ∷ []) one_sent) (at locked ("two" ∷ []) one_sent) none refl
            refl))
        (picks 0 (at locked ("two" ∷ []) one_sent) (at inside ("two" ∷ []) one_sent) none refl
          refl))
      (picks 0 (at inside ("two" ∷ []) one_sent) (at outside [] both_sent) none refl refl)

ended-IsSettled : IsSettled ended
unfolding move
ended-IsSettled zero t u o v e m = ground arith
ended-IsSettled (suc zero) t u o v e m = ground arith
ended-IsSettled (suc (suc i)) t u o v e m = ground arith

Run-IsOrderly_example : IsOrderly programs midway
Run-IsOrderly_example = Run-IsOrderly programs 5 midway midway-Run

Run-delivered_example :
    (t : Sender String) × (get_elem? ended.senders 1 ≡ some t) × Done 1 ("beat" ∷ []) t ended.server
Run-delivered_example =
    Run-delivered programs 9 ended ended-Run ended-IsSettled 1 ("beat" ∷ []) refl
