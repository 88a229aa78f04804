-- ===== src/Spec.antt =====
-- adapterhost/spec.go: the plain-data declaration of an adapter. A handler is a function from what it
-- is given to what it returns (its context is left out), and an unset one is `none`. Values of Go's
-- `any` (outputs, inspect values) are a type parameter.
pub mod Validate
pub mod Valid
pub mod Info
pub mod Schemas
pub mod Verbs
mod Inspected
pub mod Advertised
pub mod Execute
pub mod Bounds
pub mod Service
pub mod Logged
pub mod Tests
use criteria_go_adapter_sdk.Base.{ℕ, String, Bool, List, Option, Result}
use criteria_go_adapter_sdk.Base.Int.{ℤ}
use criteria_go_adapter_sdk.Wire.{Bytes}
use criteria_go_adapter_sdk.Permissions.{Round, Served}

pub record SchemaField : Type 0 where
  pub name : String
  pub type : String
  pub required : Bool
  pub description : String
  pub default : String
  pub sensitive : Bool

abbrev pub field : String → String → Bool → String → SchemaField
field name type required description = record {
  name = name;
  type = type;
  required = required;
  description = description;
  default = "";
  sensitive = Bool.false;
}

abbrev pub Schema : Type 0
Schema = List SchemaField

pub record Secret : Type 0 where
  pub name : String
  pub description : String

pub record Example : Type 0 where
  pub name : String
  pub description : String
  pub hcl : String
  pub file : String

pub record SessionStart : Type 0 where
  pub session_id : String
  pub config : List (String × String)
  pub secrets : List (String × String)
  pub allowed_outcomes : List String

pub record ExecuteInput : Type 0 where
  pub session_id : String
  pub step_name : String
  pub input : List (String × String)
  pub secrets : List (String × String)
  pub allowed_outcomes : List String
  pub timeout : ℤ

-- The result of a Spec's Execute handler (adapterhost.ExecuteResult).
pub record StepResult (Any : Type 0) : Type 0 where
  pub outcome : String
  pub comment : String
  pub outputs : List (String × Any)

pub record LogInput : Type 0 where
  pub session_id : String
  pub step_name : String

-- What a LogWriter's Line answers.
pub data LineError : Type 0 where
  bad_stream_name : String → LineError
  line_not_sent : String → LineError

-- A Log handler as what it does with its LogWriter: it returns, or writes a line and goes on with the
-- error that the write returned.
pub data LogProgram : Type 0 where
  finish : Option String → LogProgram
  write : String → String → (Option LineError → LogProgram) → LogProgram

pub record SnapshotState : Type 0 where
  pub state : Bytes
  pub schema_version : ℕ

pub record RestoreInput : Type 0 where
  pub session_id : String
  pub state : Bytes
  pub schema_version : ℕ

pub record InspectField (Any : Type 0) : Type 0 where
  pub key : String
  pub label : String
  pub value : Any

-- `last_activity` is `none` for the zero time.
pub record InspectInfo (Any : Type 0) : Type 0 where
  pub current_step : String
  pub pending_permissions : ℕ
  pub last_activity : Option ℕ
  pub fields : List (InspectField Any)
  pub extra : List (String × Any)

-- What an RPC of an adapter, or a handler of a lifecycle verb, fails with: an error of the author's
-- own, the status Unimplemented with its message, or an error of inspectResponseFromInfo. A handler
-- may return each of them.
pub data ServiceError : Type 0 where
  plain : String → ServiceError
  unimplemented : String → ServiceError
  inspect_field : String → String → ServiceError
  inspect_extra : String → ServiceError

pub record Spec (Any : Type 0) : Type 0 where
  pub name : String
  pub version : String
  pub description : String
  pub source_url : String
  pub capabilities : List String
  pub platforms : List String
  pub compatible_environments : List String
  pub container_image : String
  pub max_chunk_bytes : ℕ
  pub supported_features : Option (List String)
  pub config_schema : Schema
  pub input_schema : Schema
  pub output_schema : Schema
  pub secrets : List Secret
  pub permissions : List String
  pub examples : List Example
  pub open_session : Option (SessionStart → Option String)
  pub execute : Option (ExecuteInput → Result String (Option (StepResult Any)))
  pub log : Option (LogInput → LogProgram)
  pub close_session : Option (String → Option String)
  pub permissions_func : Option (List Round → Served)
  pub pause : Option (String → Option ServiceError)
  pub resume : Option (String → Option ServiceError)
  pub snapshot : Option (String → Result ServiceError SnapshotState)
  pub restore : Option (RestoreInput → Option ServiceError)
  pub inspect : Option (String → Result ServiceError (InspectInfo Any))

abbrev pub is_set {ℓ} : {A : Type ℓ} → Option A → Bool
is_set Option.none = Bool.false
is_set (Option.some a) = Bool.true
