-- ===== src/Spec/Tests.antt =====
-- A small spec through validation, Info and the lifecycle verbs.
use criteria_go_adapter_sdk.Base.{
  ◌≡◌, refl, ◌↔◌, true, false, String, List, [], ◌∷◌, some, none, Result, ok, err, contains, ◌⊎◌,
  ◌<>◌,
}
use criteria_go_adapter_sdk.Wire.{InfoResponse}
use criteria_go_adapter_sdk.Spec.{Spec, field, unimplemented}
use criteria_go_adapter_sdk.Spec.Validate.{validate, check_fields, check_secrets, check_examples}
use criteria_go_adapter_sdk.Spec.Valid.{IsValid, validate_iff}
use criteria_go_adapter_sdk.Spec.Info.{
  derive_info, resolve_examples, info_of, supported_features_from_spec,
}
use criteria_go_adapter_sdk.Spec.Schemas.{Reports, derive_info-Reports}
use criteria_go_adapter_sdk.Spec.Advertised.{
  pause, Calls, has_handler, verb_error, supported_features-served,
}
use criteria_go_adapter_sdk.Base.{All}
use criteria_go_adapter_sdk.Wire.{LogRequest}
use criteria_go_adapter_sdk.Base.Regex.{match_string, matches, derivative, nullable}
use criteria_go_adapter_sdk.Spec.Service.{log, log_input, log_event}
use criteria_go_adapter_sdk.Spec.Logged.{
  Stamped, Carries, writes, events_of, log-Stamped, log-writes,
}

abbrev pub greeter : Spec String
greeter = record {
  name = "greeter";
  version = "0.1.0";
  description = "says hello";
  source_url = "";
  capabilities = "parallel_safe" ∷ [];
  platforms = [];
  compatible_environments = [];
  container_image = "";
  max_chunk_bytes = 4;
  supported_features = none;
  config_schema = [];
  input_schema = field "name" "string" true "whom" ∷ field "loud" "bool" false "" ∷ [];
  output_schema = [];
  secrets = record { name = "TOKEN"; description = "a token" } ∷ [];
  permissions = [];
  examples = record { name = "hello"; description = ""; hcl = ""; file = "hello.hcl" } ∷ [];
  open_session = none;
  execute = some (λ step.
      ok (
        some (record { outcome = "success"; comment = ""; outputs = ("greeting", "hello") ∷ [] })));
  log = none;
  close_session = none;
  permissions_func = none;
  pause = some (λ id. none);
  resume = none;
  snapshot = none;
  restore = none;
  inspect = none;
}

abbrev read_file : String → Result String String
read_file path = ok "step {}"

validate_iff_example : (validate greeter ≡ ok tt) ↔ IsValid greeter
validate_iff_example = validate_iff greeter

abbrev greeter_info : InfoResponse
greeter_info =
    info_of read_file greeter (record { name = "hello"; description = ""; hcl = "step {}" } ∷ [])

derives : derive_info read_file greeter ≡ ok greeter_info
unfolding derive_info validate check_fields check_secrets check_examples resolve_examples
derives = refl

derive_info-Reports_example : IsValid greeter × Reports read_file greeter greeter_info
derive_info-Reports_example = derive_info-Reports read_file greeter greeter_info derives

abbrev encode : String → Result String String
encode s = ok s

abbrev encode_all : List (String × String) → Result String String
encode_all s = err "none"

-- A handler that itself answers Unimplemented is listed, and its error goes out as it is.
abbrev pausing : Spec String
pausing = record greeter { pause = some (λ id. some (unimplemented "not now")) }

abbrev pausing_info : InfoResponse
pausing_info =
    info_of read_file pausing (record { name = "hello"; description = ""; hcl = "step {}" } ∷ [])

pausing-derives : derive_info read_file pausing ≡ ok pausing_info
unfolding derive_info validate check_fields check_secrets check_examples resolve_examples
pausing-derives = refl

supported_features-served_example :
    ((contains "pause" pausing_info.supported_features ≡ true)
      × Calls encode encode_all pausing (pause "s"))
    ⊎ ((contains "pause" pausing_info.supported_features ≡ false)
        × ((has_handler encode encode_all pausing (pause "s") ≡ false)
            × (verb_error encode encode_all pausing (pause "s")
                ≡ some (unimplemented ("method " <> "Pause" <> " not implemented")))))
supported_features-served_example =
    supported_features-served encode encode_all read_file pausing pausing_info (pause "s")
      pausing-derives refl

advertises : supported_features_from_spec greeter ≡ "pause" ∷ []
unfolding supported_features_from_spec
advertises = refl

-- Three lines, the second under a name that is refused.
abbrev lines : List (String × String)
lines = ("stdout", "one") ∷ ("Std Err", "two") ∷ ("a-1_b", "three") ∷ []

abbrev chatty : Spec String
chatty = record greeter { log = some (λ input. writes lines none) }

abbrev log_request : LogRequest
log_request = record { session_id = "s"; step_name = "hello" }

log-Stamped_example : All (Stamped log_request) (log chatty log_request (λ i. none)).sent
log-Stamped_example = log-Stamped chatty log_request (λ i. none)

log-writes_example :
    ((log chatty log_request (λ i. none)).answer ≡ none)
    × Carries log_request lines (log chatty log_request (λ i. none)).sent
log-writes_example =
    log-writes chatty log_request (λ input. writes lines none) (λ i. none) lines none refl refl
      (λ j. refl)

two_of_three :
    events_of (log_input log_request) lines
    ≡ log_event (log_input log_request) "stdout" "one"
      ∷ log_event (log_input log_request) "a-1_b" "three"
      ∷ []
unfolding match_string matches derivative nullable
two_of_three = refl
