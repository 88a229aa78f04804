-- ===== src/Spec/Logged.antt =====
-- What a Log handler's lines become.
use criteria_go_adapter_sdk.Base.{
  sym, subst, ℕ, ◌+◌, String, ◌≡◌, refl, ap, ◌∙◌, List, [], ◌∷◌, Option, none, some, All,
  All-append, ◌++◌, if◌then◌else◌, arith, Bool-cases, inl, inr,
}
use criteria_go_adapter_sdk.Base.Regex.{match_string}
use criteria_go_adapter_sdk.Base.Regex.Language.{In, match_string_iff}
use criteria_go_adapter_sdk.Wire.{LogRequest, LogEvent}
use criteria_go_adapter_sdk.Spec.{Spec, LogInput, LogProgram, finish, write}
use criteria_go_adapter_sdk.Spec.Service.{
  log_stream_name_pattern, log_event, line, send_event, run_log, log_input, run_log_handler, log,
}

-- A stamped event under a stream name of the documented form.
pub record Stamped (req : LogRequest) (e : LogEvent) : Type 0 where
  pub session : e.session_id ≡ req.session_id
  pub step : e.step_name ≡ req.step_name
  pub name : In log_stream_name_pattern e.stream_name

-- A handler that writes lines, whatever the writer answers, and returns.
abbrev pub writes : List (String × String) → Option String → LogProgram
writes [] answer = finish answer
writes ((stream, text) ∷ lines) answer = write stream text (λ e. writes lines answer)

-- The events of the lines under a matching stream name, in order.
abbrev pub events_of : LogInput → List (String × String) → List LogEvent
events_of input [] = []
events_of input ((stream, text) ∷ lines) =
    let rest = events_of input lines in
    if match_string log_stream_name_pattern stream then log_event input stream text ∷ rest else rest

-- The events that carry the lines under a well-formed stream name, and no others, in order.
pub data Carries (req : LogRequest) : List (String × String) → List LogEvent → Type 0 where
  none_left : Carries req [] []
  carried :
      {stream text : String} {lines : List (String × String)} {events : List LogEvent}
      → In log_stream_name_pattern stream
      → Carries req lines events
      → Carries req ((stream, text) ∷ lines) (
          record {
            session_id = req.session_id;
            step_name = req.step_name;
            stream_name = stream;
            line = text;
          }
          ∷ events)
  refused :
      {stream text : String} {lines : List (String × String)} {events : List LogEvent}
      → ¬ In log_stream_name_pattern stream
      → Carries req lines events
      → Carries req ((stream, text) ∷ lines) events

events_of-Carries :
    (req : LogRequest) (lines : List (String × String))
    → Carries req lines (events_of (log_input req) lines)
events_of-Carries req [] = none_left
events_of-Carries req ((stream, text) ∷ lines) =
    elim (Bool-cases (match_string log_stream_name_pattern stream)) [
      | inl e ↦ rw e (
          carried ((match_string_iff log_stream_name_pattern stream).0 e)
            (events_of-Carries req lines))
      | inr e ↦ rw e (
          refused (λ h. cc ((match_string_iff log_stream_name_pattern stream).1 h, e))
            (events_of-Carries req lines))
    ]

sent_lem :
    (req : LogRequest) (stream text : String) (outcome : Option String)
    → In log_stream_name_pattern stream
    → All (Stamped req) (send_event (log_event (log_input req) stream text) outcome).sent
sent_lem req stream text none h = (record { session = refl; step = refl; name = h }, tt)
sent_lem req stream text (some e) h = tt

line-Stamped :
    (req : LogRequest) (stream text : String) (outcome : Option String)
    → All (Stamped req) (line (log_input req) stream text outcome).sent
unfolding line
line-Stamped req stream text outcome =
    elim (Bool-cases (match_string log_stream_name_pattern stream)) [
      | inl e ↦
          rw e (
            sent_lem req stream text outcome
              ((match_string_iff log_stream_name_pattern stream).0 e))
      | inr e ↦ rw e tt
    ]

line-healthy :
    (input : LogInput) (stream text : String) (outcome : Option String)
    → outcome ≡ none
    → (line input stream text outcome).sent ≡ events_of input ((stream, text) ∷ [])
unfolding line
line-healthy input stream text none h =
    elim (Bool-cases (match_string log_stream_name_pattern stream)) [
      | inl e ↦ rw e refl
      | inr e ↦ rw e refl
    ]
line-healthy input stream text (some e) h = ground arith

events_of-cons :
    (input : LogInput) (stream text : String) (lines : List (String × String))
    → events_of input ((stream, text) ∷ []) ++ events_of input lines
      ≡ events_of input ((stream, text) ∷ lines)
events_of-cons input stream text lines =
    elim (Bool-cases (match_string log_stream_name_pattern stream)) [
      | inl e ↦ rw e refl
      | inr e ↦ rw e refl
    ]

run_log-writes :
    (input : LogInput) (send : ℕ → Option String) (i : ℕ) (lines : List (String × String))
    (answer : Option String)
    → ((j : ℕ) → send j ≡ none)
    → run_log input send i (writes lines answer)
      ≡ record { sent = events_of input lines; answer = answer }
unfolding run_log
run_log-writes input send i [] answer h = refl
run_log-writes input send i ((stream, text) ∷ lines) answer h =
    let l = line input stream text (send i) in
    ap (λ r. record { sent = l.sent ++ r.sent; answer = r.answer })
      (run_log-writes input send (i + l.sends) lines answer h)
    ∙ ap (λ es. record { sent = es; answer = answer })
        (ap (λ es. es ++ events_of input lines) (line-healthy input stream text (send i) (h i))
          ∙ events_of-cons input stream text lines)

run_log-Stamped :
    (req : LogRequest) (send : ℕ → Option String) (p : LogProgram) (i : ℕ)
    → All (Stamped req) (run_log (log_input req) send i p).sent
unfolding run_log
run_log-Stamped req send (finish answer) i = tt
run_log-Stamped req send (write stream text next) i =
    let l = line (log_input req) stream text (send i) in
    All-append (Stamped req) l.sent _ (line-Stamped req stream text (send i))
      (run_log-Stamped req send (next l.error) (i + l.sends))

module _ {Any : Type 0} (spec : Spec Any) (req : LogRequest) where
  -- Whatever a Log handler does and whichever sends fail, each event that reaches the stream carries
  -- the request's session and step and a stream name that matches ^[a-z][a-z0-9_-]{0,31}$.
  pub log-Stamped : (send : ℕ → Option String) → All (Stamped req) (log spec req send).sent
  unfolding log
  log-Stamped send = handler spec.log
    where
      handler :
          (f : Option (LogInput → LogProgram)) → All (Stamped req) (run_log_handler req send f).sent
      handler none = tt
      handler (some f) = run_log-Stamped req send (f (log_input req)) 0

  -- A handler that writes some lines on a healthy stream and returns has exactly those of them sent
  -- whose stream name matches ^[a-z][a-z0-9_-]{0,31}$, in their order, each with its own text and stream
  -- name and the request's session and step, and its answer is the service's.
  pub log-writes :
      (f : LogInput → LogProgram) (send : ℕ → Option String) (lines : List (String × String))
      (answer : Option String)
      → spec.log ≡ some f
      → f (log_input req) ≡ writes lines answer
      → ((j : ℕ) → send j ≡ none)
      → ((log spec req send).answer ≡ answer) × Carries req lines (log spec req send).sent
  unfolding log
  log-writes f send lines answer hl hf hs =
      let e =
        ap (run_log_handler req send) hl
        ∙ (ap (run_log (log_input req) send 0) hf
            ∙ run_log-writes (log_input req) send 0 lines answer hs) in
      (
        ap (λ l. l.answer) e,
        subst (Carries req lines) (sym (ap (λ l. l.sent) e)) (events_of-Carries req lines),
      )
