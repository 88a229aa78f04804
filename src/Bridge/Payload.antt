-- ===== src/Bridge/Payload.antt =====
-- adapterhost/toolcall.go: AdapterToolCall, its validation, the target string and
-- `buildToolCallPayload`. JSON values and their encodings are those of other packages, so they come
-- as a record of functions.
use criteria_go_adapter_sdk.Base.{
  String, List, [], ◌∷◌, Option, none, some, Result, ok, err, ◌>>=◌, wrap_err, ◌==◌, if◌then◌else◌,
  insert, ◌<>◌,
}
use criteria_go_adapter_sdk.Base.Int.{ℤ}
use criteria_go_adapter_sdk.Wire.{Bytes, ToolCallResult}
use criteria_go_adapter_sdk.Bridge.Error.{
  External, CallError, no_session_id, no_target, no_tool, args_failed, args_no_object,
  digest_failed, struct_failed, payload_failed,
}

-- `Any` is Go's `any`, with the two kinds of value that the payload holds; `unmarshal` decodes into
-- a `map[string]any`, and a JSON null gives the nil map. v2.CanonicalJSON, json.Unmarshal,
-- v2.ArgsDigest, structpb.NewStruct, Struct.AsMap and v2.JoinToolCallResultOutputs.
pub record Codec : Type 1 where
  pub Any : Type 0
  pub Struct : Type 0
  pub text : String → Any
  pub object : List (String × Any) → Any
  pub canonical_json : Any → Result External Bytes
  pub unmarshal : Bytes → Result External (Option (List (String × Any)))
  pub args_digest : List (String × Any) → Result External String
  pub new_struct : List (String × Any) → Result External Struct
  pub as_map : Struct → List (String × Any)
  pub join_outputs : List ToolCallResult → Result External Bytes

-- The timeout is a time.Duration, in nanoseconds.
pub record AdapterToolCall (Any : Type 0) : Type 0 where
  pub session_id : String
  pub target : String
  pub tool : String
  pub args : Any
  pub preview : String
  pub timeout : ℤ

abbrev pub validate : {Any : Type 0} → AdapterToolCall Any → Result CallError (Unit {0})
validate call =
    if call.session_id == ""
    then err no_session_id
    else if call.target == ""
    then err no_target
    else if call.tool == ""
    then err no_tool
    else ok tt

abbrev pub payload_kind_adapter_tool : String
payload_kind_adapter_tool = "adapter_tool"

unfoldable pub format_adapter_tool_target : String → String → String → String
format_adapter_tool_target adapter_type instance_name tool =
    let target = "adapter." <> adapter_type <> "." <> instance_name <> ".tools" in
    if tool == "" then target else target <> "." <> tool

module _ (x : Codec) where
  open x use {Any, Struct, text, object, canonical_json, unmarshal, args_digest, new_struct, as_map}

  abbrev pub or_empty : Option (List (String × Any)) → List (String × Any)
  or_empty none = []
  or_empty (some args) = args

  abbrev pub payload_fields : AdapterToolCall Any → String → Struct → String → List (String × Any)
  payload_fields call id args digest =
      let fields : List (String × Any) =
        ("kind", text payload_kind_adapter_tool)
        ∷ ("request_id", text id)
        ∷ ("target", text call.target)
        ∷ ("tool", text call.tool)
        ∷ ("args", object (as_map args))
        ∷ ("args_digest", text digest)
        ∷ [] in
      if call.preview == "" then fields else insert "args_preview" (text call.preview) fields

  unfoldable pub build_tool_call_payload : AdapterToolCall Any → String → Result CallError Struct
  build_tool_call_payload call id = do
    canonical ← wrap_err (args_failed call.tool) (canonical_json call.args)
    decoded ← wrap_err (args_no_object call.tool) (unmarshal canonical)
    let args = or_empty decoded
    digest ← wrap_err (digest_failed call.tool) (args_digest args)
    args_struct ← wrap_err (struct_failed call.tool) (new_struct args)
    wrap_err payload_failed (new_struct (payload_fields call id args_struct digest))
