-- ===== src/Spec/Service.antt =====
-- adapterhost/spec.go, the other handlers of specService, and the Log handler's lifetime in
-- adapterhost/serve.go.
use criteria_go_adapter_sdk.Base.{
  ℕ, ◌+◌, String, Bool, not, ◌||◌, List, [], ◌∷◌, ◌++◌, Option, none, some, num_eq, if◌then◌else◌,
}
use criteria_go_adapter_sdk.Base.Regex.{Regex, one, seq, up_to, match_string, is_lower, is_digit}
use criteria_go_adapter_sdk.Wire.{OpenSessionRequest, LogRequest, LogEvent}
use criteria_go_adapter_sdk.Permissions.{Round, Served, run_unimplemented_permissions}
use criteria_go_adapter_sdk.Spec.{
  Spec, SessionStart, LogInput, LogProgram, finish, write, LineError, bad_stream_name,
  line_not_sent,
}

-- The clones of the maps read like the maps.
abbrev pub session_start : OpenSessionRequest → SessionStart
session_start req = record {
  session_id = req.session_id;
  config = req.config;
  secrets = req.secrets;
  allowed_outcomes = req.allowed_outcomes;
}

abbrev pub run_optional : {A : Type 0} → Option (A → Option String) → A → Option String
run_optional none a = none
run_optional (some f) a = f a

-- [a-z0-9_-]
abbrev pub is_name_code : ℕ → Bool
is_name_code c = is_lower c || is_digit c || num_eq c 95 || num_eq c 45

-- ^[a-z][a-z0-9_-]{0,31}$
abbrev pub log_stream_name_pattern : Regex
log_stream_name_pattern = seq (one is_lower) (up_to 31 (one is_name_code))

abbrev pub log_event : LogInput → String → String → LogEvent
log_event input stream text = record {
  session_id = input.session_id;
  step_name = input.step_name;
  stream_name = stream;
  line = text;
}

-- The events that reached the sender, and what the handler returned.
pub record Logged : Type 0 where
  pub sent : List LogEvent
  pub answer : Option String

-- What one Line makes of it: its error, the event that reached the sender, and the sends it made.
pub record Line : Type 0 where
  pub error : Option LineError
  pub sent : List LogEvent
  pub sends : ℕ

abbrev pub send_event : LogEvent → Option String → Line
send_event e none = record { error = none; sent = e ∷ []; sends = 1 }
send_event e (some err) = record { error = some (line_not_sent err); sent = []; sends = 1 }

unfoldable pub line : LogInput → String → String → Option String → Line
line input stream text outcome =
    if not (match_string log_stream_name_pattern stream)
    then record { error = some (bad_stream_name stream); sent = []; sends = 0 }
    else send_event (log_event input stream text) outcome

abbrev pub nothing_logged : Logged
nothing_logged = record { sent = []; answer = none }

-- The handler's program with its writer; `send i` is the outcome of the i-th send.
unfoldable pub run_log : LogInput → (ℕ → Option String) → ℕ → LogProgram → Logged
run_log input send i (finish answer) = record { sent = []; answer = answer }
run_log input send i (write stream text next) =
    let l = line input stream text (send i) in
    let rest = run_log input send (i + l.sends) (next l.error) in
    record { sent = l.sent ++ rest.sent; answer = rest.answer }

abbrev pub log_input : LogRequest → LogInput
log_input req = record { session_id = req.session_id; step_name = req.step_name }

abbrev pub run_log_handler :
    LogRequest → (ℕ → Option String) → Option (LogInput → LogProgram) → Logged
run_log_handler req send none = nothing_logged
run_log_handler req send (some f) = run_log (log_input req) send 0 (f (log_input req))

abbrev pub run_permissions : Option (List Round → Served) → List Round → Served
run_permissions none rounds = run_unimplemented_permissions rounds
run_permissions (some f) rounds = f rounds

module _ {Any : Type 0} where
  unfoldable pub open_session : Spec Any → OpenSessionRequest → Option String
  open_session spec req = run_optional spec.open_session (session_start req)

  unfoldable pub close_session : Spec Any → String → Option String
  close_session spec id = run_optional spec.close_session id

  unfoldable pub log : Spec Any → LogRequest → (ℕ → Option String) → Logged
  log spec req send = run_log_handler req send spec.log

  unfoldable pub serve_permissions : Spec Any → List Round → Served
  serve_permissions spec rounds = run_permissions spec.permissions_func rounds

-- The RPC's stream behind the handler: it failed, or stays open until the host ends it.
pub data LogStream : Type 0 where
  log_failed : String → LogStream
  log_open log_ended : LogStream

abbrev pub grpc_log : Option String → Bool → LogStream
grpc_log (some e) ended = log_failed e
grpc_log none ended = if ended then log_ended else log_open
