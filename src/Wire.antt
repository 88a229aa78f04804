-- ===== src/Wire.antt =====
-- The messages of criteria-adapter-proto (package v2), which src/ does not hold: the fields of each
-- that the SDK reads or writes, and no operation. A nil submessage is `none`; a getter on nil reads
-- the zero value.
use criteria_go_adapter_sdk.Base.{ℕ, String, Bool, List, [], Option, none, some}

abbrev pub Bytes : Type 0
Bytes = List ℕ

pub record Chunk : Type 0 where
  pub seq : ℕ
  pub total : ℕ
  pub final : Bool

-- Execute stream.
pub record ExecuteResult : Type 0 where
  pub outcome : String
  pub comment : String
  pub outputs_json : Bytes
  pub chunk : Option Chunk

pub record AdapterEvent (Struct : Type 0) : Type 0 where
  pub event_kind : String
  pub payload : Struct
  pub emitted_at : ℕ

pub data ExecuteEvent (Struct : Type 0) : Type 0 where
  result : ExecuteResult → ExecuteEvent Struct
  adapter : AdapterEvent Struct → ExecuteEvent Struct
  heartbeat : ExecuteEvent Struct

-- Permissions stream.
pub record ToolCallResult : Type 0 where
  pub request_id : String
  pub outcome : String
  pub outputs_json : Bytes
  pub call_error : String
  pub chunk : Option Chunk

pub record PermissionCancel : Type 0 where
  pub request_id : String
  pub reason : String

pub data PermissionEvent : Type 0 where
  request : String → PermissionEvent
  cancel : PermissionCancel → PermissionEvent
  tool_call_result : ToolCallResult → PermissionEvent
  unset : PermissionEvent

pub record PermissionDecision : Type 0 where
  pub request_id : String
  pub decision : String

-- Info.
pub record ConfigField : Type 0 where
  pub type : String
  pub required : Bool
  pub description : String
  pub default_str : String
  pub sensitive : Bool

-- AdapterSchemaProto, by its one field.
abbrev pub WireSchema : Type 0
WireSchema = List (String × ConfigField)

-- GetFields, on a schema that may be nil.
abbrev pub fields_of : Option WireSchema → WireSchema
fields_of none = []
fields_of (some m) = m

pub record WireExample : Type 0 where
  pub name : String
  pub description : String
  pub hcl : String

pub record InfoResponse : Type 0 where
  pub name : String
  pub version : String
  pub description : String
  pub capabilities : List String
  pub platforms : List String
  pub sdk_protocol_version : String
  pub source_url : String
  pub config_schema : Option WireSchema
  pub input_schema : Option WireSchema
  pub output_schema : Option WireSchema
  pub secrets : List (String × String)
  pub permissions : List String
  pub compatible_environments : List String
  pub container_image : String
  pub supported_features : List String
  pub max_chunk_bytes : ℕ
  pub examples : List WireExample

-- Lifecycle verbs. Pause, Resume, Snapshot and Inspect requests carry a session id alone.
pub record RestoreRequest : Type 0 where
  pub session_id : String
  pub state : Bytes
  pub schema_version : ℕ

pub record SnapshotResponse : Type 0 where
  pub state : Bytes
  pub schema_version : ℕ

pub record WireInspectField (Value : Type 0) : Type 0 where
  pub key : String
  pub label : String
  pub value : Value

pub record InspectResponse (Value Struct : Type 0) : Type 0 where
  pub current_step : String
  pub pending_permission_count : ℕ
  pub last_activity_at : Option ℕ
  pub fields : List (WireInspectField Value)
  pub extra : Option Struct

-- Sessions and Execute.
pub record OpenSessionRequest : Type 0 where
  pub session_id : String
  pub config : List (String × String)
  pub secrets : List (String × String)
  pub allowed_outcomes : List String

pub record ExecuteRequest : Type 0 where
  pub session_id : String
  pub step_name : String
  pub input : List (String × String)
  pub secret_inputs : List (String × String)
  pub allowed_outcomes : List String
  pub timeout_ms : ℕ

pub record LogRequest : Type 0 where
  pub session_id : String
  pub step_name : String

-- Its timestamp, the time of the send, is left out.
pub record LogEvent : Type 0 where
  pub session_id : String
  pub step_name : String
  pub stream_name : String
  pub line : String
