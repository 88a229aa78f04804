-- ===== src/Greeter.antt =====
-- examples/greeter/main.go, the adapter that the repository shows as an example. `text` makes a Go string
-- an `any`.
pub mod Served
mod Tests
use criteria_go_adapter_sdk.Base.{
  String, ◌<>◌, Bool, true, false, List, [], ◌∷◌, Option, none, some, Result, ok, lookup, ◌==◌,
  if◌then◌else◌,
}
use criteria_go_adapter_sdk.Spec.{Spec, ExecuteInput, StepResult, field}

abbrev pub greeter_greeting : String → String
greeter_greeting name = "hello, " <> (if name == "" then "world" else name)

-- An index of a map, "" where the key is not there.
abbrev pub or_empty : Option String → String
or_empty none = ""
or_empty (some v) = v

module _ {Any : Type 0} (text : String → Any) where
  abbrev pub execute_greet : ExecuteInput → Result String (Option (StepResult Any))
  execute_greet input = ok (
      some (record {
        outcome = "success";
        comment = "";
        outputs = ("greeting", text (greeter_greeting (or_empty (lookup "name" input.input)))) ∷ [];
      }))

  abbrev pub greeter_spec : Spec Any
  greeter_spec = record {
    name = "greeter";
    version = "0.1.0";
    description = "greets politely";
    source_url = "https://github.com/brokenbots/criteria-go-adapter-sdk";
    capabilities = [];
    platforms = "linux/amd64" ∷ "linux/arm64" ∷ "darwin/arm64" ∷ [];
    compatible_environments = [];
    container_image = "";
    max_chunk_bytes = 0;
    supported_features = none;
    config_schema = [];
    input_schema = field "name" "string" false "who to greet" ∷ [];
    output_schema = field "greeting" "string" true "the greeting" ∷ [];
    secrets = [];
    permissions = [];
    examples = [];
    open_session = none;
    execute = some execute_greet;
    log = none;
    close_session = none;
    permissions_func = none;
    pause = none;
    resume = none;
    snapshot = none;
    restore = none;
    inspect = none;
  }
