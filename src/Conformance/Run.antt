-- ===== src/Conformance/Run.antt =====
-- adapterhost/conformance.go: the concurrent-Execute case. The adapter behind its loopback connection
-- is what each request's stream shows, so any interleaving of the calls is one choice of streams.
use criteria_go_adapter_sdk.Base.{
  ℕ, zero, suc, ◌+◌, String, Bool, true, false, ◌&&◌, List, [], ◌∷◌, ◌++◌, Option, none, some,
  Result, ok, err, ◌>>=◌, ◌>>◌, wrap_err, ◌==◌, num_eq, ltb, if◌then◌else◌,
}
use criteria_go_adapter_sdk.Base.Int.{ℤ, pos, negsuc}
use criteria_go_adapter_sdk.Wire.{
  Bytes, ExecuteRequest, ExecuteResult, ExecuteEvent, result, adapter, heartbeat,
}
use criteria_go_adapter_sdk.Conformance.Loopback.{LoopbackError, with_loopback}
use criteria_go_adapter_sdk.Conformance.{JoinError, has_chunk, join_execute_result_fragments}

pub record ConcurrentExecuteOptions : Type 0 where
  pub calls : ℤ
  pub call_timeout : ℤ

abbrev pub min_concurrent_execute_calls : ℕ
min_concurrent_execute_calls = 3

abbrev pub default_options : ConcurrentExecuteOptions
default_options = record { calls = pos 4; call_timeout = pos 10000000000 }

abbrev pub with_concurrent_execute_calls : ℤ → ConcurrentExecuteOptions → ConcurrentExecuteOptions
with_concurrent_execute_calls n o = record { calls = n; call_timeout = o.call_timeout }

abbrev pub with_concurrent_execute_call_timeout :
    ℤ → ConcurrentExecuteOptions → ConcurrentExecuteOptions
with_concurrent_execute_call_timeout d o = record { calls = o.calls; call_timeout = d }

abbrev pub apply_options :
    List (ConcurrentExecuteOptions → ConcurrentExecuteOptions)
    → ConcurrentExecuteOptions
    → ConcurrentExecuteOptions
apply_options [] o = o
apply_options (opt ∷ opts) o = apply_options opts (opt o)

abbrev pub conformance_session_id : String
conformance_session_id = "concurrent-execute-conformance"

abbrev pub with_session : ExecuteRequest → ExecuteRequest
with_session req = record {
  session_id = conformance_session_id;
  step_name = req.step_name;
  input = req.input;
  secret_inputs = req.secret_inputs;
  allowed_outcomes = req.allowed_outcomes;
  timeout_ms = req.timeout_ms;
}

-- What one call's stream shows: it does not start, or some events and then its end, which is `none`
-- for io.EOF.
pub data Stream (Struct : Type 0) : Type 0 where
  no_stream : String → Stream Struct
  events : List (ExecuteEvent Struct) → Option String → Stream Struct

pub data DriveError : Type 0 where
  execute_failed : String → String → DriveError
  recv_failed : String → String → DriveError
  not_joined : String → JoinError → DriveError

pub data Failure : Type 0 where
  call_failed : ℕ → DriveError → Failure
  mismatch : ℕ → ExecuteResult → ExecuteResult → Failure

pub data ConformanceError : Type 0 where
  svc_is_nil script_is_nil : ConformanceError
  too_few_calls : ℤ → ConformanceError
  bad_timeout : ℤ → ConformanceError
  nil_request nil_expected chunked_expected : ℕ → ConformanceError
  identical : ℕ → ℕ → ConformanceError
  not_started : LoopbackError → ConformanceError
  not_opened : String → ConformanceError
  -- The text joins the failures' texts in sorted order; the value keeps the order of the calls.
  failures : List Failure → ConformanceError

abbrev pub bytes_equal : Bytes → Bytes → Bool
bytes_equal [] [] = true
bytes_equal [] (y ∷ ys) = false
bytes_equal (x ∷ xs) [] = false
bytes_equal (x ∷ xs) (y ∷ ys) = num_eq x y && bytes_equal xs ys

abbrev pub same_execute_result : ExecuteResult → ExecuteResult → Bool
same_execute_result a b = (a.outcome == b.outcome) && bytes_equal a.outputs_json b.outputs_json

-- One expectation against those from position j on.
abbrev pub check_distinct :
    ℕ → ℕ → ExecuteResult → List ExecuteResult → Result ConformanceError (Unit {0})
check_distinct i j want [] = ok tt
check_distinct i j want (other ∷ wants) =
    if same_execute_result want other
    then err (identical i j)
    else check_distinct i (j + 1) want wants

unfoldable pub verify_distinct_results : ℕ → List ExecuteResult → Result ConformanceError (Unit {0})
verify_distinct_results i [] = ok tt
verify_distinct_results i (want ∷ wants) = do
  check_distinct i (i + 1) want wants
  verify_distinct_results (i + 1) wants

abbrev pub collect_results : {Struct : Type 0} → List (ExecuteEvent Struct) → List ExecuteResult
collect_results [] = []
collect_results (result r ∷ evs) = r ∷ collect_results evs
collect_results (adapter a ∷ evs) = collect_results evs
collect_results (heartbeat ∷ evs) = collect_results evs

abbrev pub Script : Type 0
Script = ℕ → Option ExecuteRequest × Option ExecuteResult

pub record Call : Type 0 where
  pub request : ExecuteRequest
  pub want : ExecuteResult

abbrev pub prepare_call :
    ℕ → Option ExecuteRequest × Option ExecuteResult → Result ConformanceError Call
prepare_call i (none, want) = err (nil_request i)
prepare_call i (some req, none) = err (nil_expected i)
prepare_call i (some req, some want) =
    if has_chunk want
    then err (chunked_expected i)
    else ok (record { request = with_session req; want = want })

-- The calls from position i on, n of them.
abbrev pub prepare_calls : Script → ℕ → ℕ → Result ConformanceError (List Call)
prepare_calls script i zero = ok []
prepare_calls script i (suc n) = do
  call ← prepare_call i (script i)
  calls ← prepare_calls script (i + 1) n
  ok (call ∷ calls)

abbrev pub wants_of : List Call → List ExecuteResult
wants_of [] = []
wants_of (c ∷ cs) = c.want ∷ wants_of cs

abbrev pub judge : ℕ → ExecuteResult → Result DriveError ExecuteResult → List Failure
judge i want (err e) = call_failed i e ∷ []
judge i want (ok got) = if same_execute_result got want then [] else mismatch i got want ∷ []

abbrev pub verdict : List Failure → Result ConformanceError (Unit {0})
verdict [] = ok tt
verdict (f ∷ fs) = err (failures (f ∷ fs))

abbrev pub attempt :
    (String → ConformanceError) → Option String → Result ConformanceError (Unit {0})
attempt f none = ok tt
attempt f (some e) = err (f e)

-- The adapter under test: whether its listener and its client are made and it opens the session, and the
-- streams of the calls on it.
pub record UnderTest (Struct : Type 0) : Type 0 where
  pub listen : Option String
  pub new_client : Option String
  pub open_session : Option String
  pub stream : List Call → ℕ → Stream Struct

abbrev pub check_timeout : ℤ → Result ConformanceError (Unit {0})
check_timeout (pos zero) = err (bad_timeout (pos zero))
check_timeout (pos (suc n)) = ok tt
check_timeout (negsuc n) = err (bad_timeout (negsuc n))

abbrev pub check_calls : ℤ → Result ConformanceError ℕ
check_calls (pos n) =
    if ltb n min_concurrent_execute_calls then err (too_few_calls (pos n)) else ok n
check_calls (negsuc n) = err (too_few_calls (negsuc n))

module _ {Struct : Type 0} (join_outputs : List ExecuteResult → Result String Bytes) where
  abbrev pub drive_conformance_execute :
      ExecuteRequest → Stream Struct → Result DriveError ExecuteResult
  drive_conformance_execute req (no_stream e) = err (execute_failed req.step_name e)
  drive_conformance_execute req (events evs (some e)) = err (recv_failed req.step_name e)
  drive_conformance_execute req (events evs none) =
      wrap_err (not_joined req.step_name)
        (join_execute_result_fragments join_outputs (collect_results evs))

  -- The outcomes of the calls from position i on; `stream i` is what call i's stream shows.
  abbrev pub failures_of : (ℕ → Stream Struct) → ℕ → List Call → List Failure
  failures_of stream i [] = []
  failures_of stream i (c ∷ cs) =
      judge i c.want (drive_conformance_execute c.request (stream i))
      ++ failures_of stream (i + 1) cs

  -- On one session of the connected client.
  abbrev pub run_opened : UnderTest Struct → List Call → Result ConformanceError (Unit {0})
  run_opened svc calls = do
    attempt not_opened svc.open_session
    verdict (failures_of (svc.stream calls) 0 calls)

  abbrev pub run_calls : ℕ → UnderTest Struct → Script → Result ConformanceError (Unit {0})
  run_calls n svc script = do
    calls ← prepare_calls script 0 n
    verify_distinct_results 0 (wants_of calls)
    (with_loopback not_started svc.listen svc.new_client (run_opened svc calls)).1

  abbrev pub run_checked :
      ConcurrentExecuteOptions → UnderTest Struct → Script → Result ConformanceError (Unit {0})
  run_checked o svc script = do
    n ← check_calls o.calls
    check_timeout o.call_timeout
    run_calls n svc script

  -- A nil service and a nil script are `none`.
  unfoldable pub run_concurrent_execute_conformance :
      Option (UnderTest Struct)
      → Option Script
      → List (ConcurrentExecuteOptions → ConcurrentExecuteOptions)
      → Result ConformanceError (Unit {0})
  run_concurrent_execute_conformance none script opts = err svc_is_nil
  run_concurrent_execute_conformance (some svc) none opts = err script_is_nil
  run_concurrent_execute_conformance (some svc) (some script) opts =
      run_checked (apply_options opts default_options) svc script
