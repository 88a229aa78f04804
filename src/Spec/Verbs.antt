-- ===== src/Spec/Verbs.antt =====
-- The optional lifecycle verbs: the spec's service (adapterhost/spec.go) and the gRPC bridge's routing
-- to it (adapterhost/serve.go). The encodings structpb.NewValue and structpb.NewStruct are parameters.
use criteria_go_adapter_sdk.Base.{
  String, ◌<>◌, List, [], ◌∷◌, Option, none, some, Result, ok, err, ◌>>=◌, wrap_err,
}
use criteria_go_adapter_sdk.Wire.{
  RestoreRequest, SnapshotResponse, WireInspectField, InspectResponse,
}
use criteria_go_adapter_sdk.Spec.{
  Spec, ServiceError, unimplemented, inspect_field, inspect_extra, SnapshotState, RestoreInput,
  InspectField, InspectInfo,
}

abbrev pub unimplemented_verb : String → ServiceError
unimplemented_verb method = unimplemented ("method " <> method <> " not implemented")

-- A handler that returns an error alone; its error goes out unchanged.
abbrev pub handled : Option ServiceError → Result ServiceError (Unit {0})
handled none = ok tt
handled (some e) = err e

abbrev pub run_verb :
    {A : Type 0} → String → Option (A → Option ServiceError) → A → Result ServiceError (Unit {0})
run_verb method none a = err (unimplemented_verb method)
run_verb method (some f) a = handled (f a)

-- OptionalVerbs, each with the part of its request that it reads.
pub record OptionalVerbs (Value Struct : Type 0) : Type 0 where
  pub pause : String → Result ServiceError (Unit {0})
  pub resume : String → Result ServiceError (Unit {0})
  pub snapshot : String → Result ServiceError SnapshotResponse
  pub restore : RestoreRequest → Result ServiceError (Unit {0})
  pub inspect : String → Result ServiceError (InspectResponse Value Struct)

abbrev pub snapshot_response : SnapshotState → SnapshotResponse
snapshot_response s = record { state = s.state; schema_version = s.schema_version }

abbrev pub run_snapshot :
    Option (String → Result ServiceError SnapshotState)
    → String
    → Result ServiceError SnapshotResponse
run_snapshot none id = err (unimplemented_verb "Snapshot")
run_snapshot (some f) id = do s ← f id; ok (snapshot_response s)

abbrev pub restore_input : RestoreRequest → RestoreInput
restore_input req = record {
  session_id = req.session_id;
  state = req.state;
  schema_version = req.schema_version;
}

module _ {Any Value Struct : Type 0} (new_value : Any → Result String Value)
    (new_struct : List (String × Any) → Result String Struct) where
  -- The loop over info.Fields.
  abbrev pub inspect_fields :
      List (InspectField Any) → Result ServiceError (List (WireInspectField Value))
  inspect_fields [] = ok []
  inspect_fields (f ∷ fs) = do
    value ← wrap_err (inspect_field f.key) (new_value f.value)
    rest ← inspect_fields fs
    ok (record { key = f.key; label = f.label; value = value } ∷ rest)

  abbrev pub inspect_extra_of : List (String × Any) → Result ServiceError (Option Struct)
  inspect_extra_of [] = ok none
  inspect_extra_of (x ∷ xs) = do s ← wrap_err inspect_extra (new_struct (x ∷ xs)); ok (some s)

  unfoldable pub inspect_response_from_info :
      InspectInfo Any → Result ServiceError (InspectResponse Value Struct)
  inspect_response_from_info info = do
    fields ← inspect_fields info.fields
    extra ← inspect_extra_of info.extra
    ok (record {
      current_step = info.current_step;
      pending_permission_count = info.pending_permissions;
      last_activity_at = info.last_activity;
      fields = fields;
      extra = extra;
    })

  unfoldable pub run_inspect :
      Option (String → Result ServiceError (InspectInfo Any))
      → String
      → Result ServiceError (InspectResponse Value Struct)
  run_inspect none id = err (unimplemented_verb "Inspect")
  run_inspect (some f) id = do info ← f id; inspect_response_from_info info

  unfoldable pub spec_verbs : Spec Any → OptionalVerbs Value Struct
  spec_verbs spec = record {
    pause = λ id. run_verb "Pause" spec.pause id;
    resume = λ id. run_verb "Resume" spec.resume id;
    snapshot = λ id. run_snapshot spec.snapshot id;
    restore = λ req. run_verb "Restore" spec.restore (restore_input req);
    inspect = λ id. run_inspect spec.inspect id;
  }

-- The bridge's five handlers; `verbs` is nil where the implementation has none.
module _ {Value Struct : Type 0} where
  abbrev pub grpc_pause :
      Option (OptionalVerbs Value Struct) → String → Result ServiceError (Unit {0})
  grpc_pause none id = err (unimplemented_verb "Pause")
  grpc_pause (some v) id = v.pause id

  abbrev pub grpc_resume :
      Option (OptionalVerbs Value Struct) → String → Result ServiceError (Unit {0})
  grpc_resume none id = err (unimplemented_verb "Resume")
  grpc_resume (some v) id = v.resume id

  abbrev pub grpc_snapshot :
      Option (OptionalVerbs Value Struct) → String → Result ServiceError SnapshotResponse
  grpc_snapshot none id = err (unimplemented_verb "Snapshot")
  grpc_snapshot (some v) id = v.snapshot id

  abbrev pub grpc_restore :
      Option (OptionalVerbs Value Struct) → RestoreRequest → Result ServiceError (Unit {0})
  grpc_restore none req = err (unimplemented_verb "Restore")
  grpc_restore (some v) req = v.restore req

  abbrev pub grpc_inspect :
      Option (OptionalVerbs Value Struct)
      → String
      → Result ServiceError (InspectResponse Value Struct)
  grpc_inspect none id = err (unimplemented_verb "Inspect")
  grpc_inspect (some v) id = v.inspect id
