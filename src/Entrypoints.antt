-- ===== src/Entrypoints.antt =====
-- The entrypoints of an adapter process: adapterhost/serve.go, Serve and its go-plugin glue,
-- adapterhost/spec.go, ServeSpec and ServeSpecRemote, and adapterhost/handshake.go.
pub mod Tiers
pub mod Identity
mod Tests
use criteria_go_adapter_sdk.Base.{
  ℕ, String, Bool, false, List, [], ◌∷◌, Option, none, some, Result, ok, err, ◌>>=◌, wrap_err, ◌==◌,
  if◌then◌else◌,
}
use criteria_go_adapter_sdk.Base.Int.{pos}
use criteria_go_adapter_sdk.Wire.{
  Bytes, InfoResponse, OpenSessionRequest, ExecuteRequest, LogRequest,
}
use criteria_go_adapter_sdk.Permissions.{Round, Served}
use criteria_go_adapter_sdk.Spec.Execute.{Framing, Delivery, execute}
use criteria_go_adapter_sdk.Spec.Service.{
  Logged, LogStream, grpc_log, open_session, log, serve_permissions, close_session,
}
use criteria_go_adapter_sdk.Spec.{Spec}
use criteria_go_adapter_sdk.Spec.Validate.{SpecError, spec_service}
use criteria_go_adapter_sdk.Spec.Info.{derive_info}
use criteria_go_adapter_sdk.Spec.Verbs.{OptionalVerbs, spec_verbs}
use criteria_go_adapter_sdk.Manifest.{
  ManifestDoc, Emission, not_requested, exits_one, handled, emit_manifest_from_service,
  emit_manifest_from_spec, run_emit_manifest_if_requested,
}
use criteria_go_adapter_sdk.Remote.{
  RemoteIdentity, ServeRemoteOptions, RemoteHandshake, Attempt, Outcome, serve_remote,
}

-- go-plugin's HandshakeConfig.
pub record HandshakeConfig : Type 0 where
  pub protocol_version : ℕ
  pub magic_cookie_key : String
  pub magic_cookie_value : String

abbrev pub magic_cookie_key : String
magic_cookie_key = "CRITERIA_PLUGIN"

abbrev pub magic_cookie_value : String
magic_cookie_value = "7a1bf31f-c805-4e75-a31c-22195c9fdd4c"

abbrev pub handshake_config : HandshakeConfig
handshake_config = record {
  protocol_version = 2;
  magic_cookie_key = magic_cookie_key;
  magic_cookie_value = magic_cookie_value;
}

abbrev pub adapter_name : String
adapter_name = "adapter"

-- A Service, as what each method answers to what it reads: `execute` and `log` are given the outcomes of
-- their sends, `permissions` the rounds of its stream. `verbs` are the lifecycle verbs, where it has them.
pub record Service (Value Struct : Type 0) : Type 0 where
  pub info : Result String (Option InfoResponse)
  pub open_session : OpenSessionRequest → Option String
  pub execute : ExecuteRequest → (ℕ → Option String) → Delivery
  pub log : LogRequest → (ℕ → Option String) → Logged
  pub permissions : List Round → Served
  pub close_session : String → Option String
  pub verbs : Option (OptionalVerbs Value Struct)

-- How a process goes on: it exits with status 1, it has written a manifest and returns, or it
-- serves the plugins under their names.
pub data Process (Value Struct : Type 0) : Type 0 where
  exits : Process Value Struct
  printed : Bytes → Process Value Struct
  plugin : HandshakeConfig → List (String × Option (Service Value Struct)) → Process Value Struct

-- grpcAdapterServer.
pub record GrpcAdapterServer (Value Struct : Type 0) : Type 0 where
  pub impl : Service Value Struct
  pub verbs : Option (OptionalVerbs Value Struct)

module _ {Value Struct : Type 0} where
  abbrev pub optional_verbs_of : Service Value Struct → Option (OptionalVerbs Value Struct)
  optional_verbs_of impl = impl.verbs

  -- grpcAdapter.GRPCServer: what is registered.
  unfoldable pub grpc_server :
      Option (Service Value Struct) → Result String (GrpcAdapterServer Value Struct)
  grpc_server none = err "adapter implementation is nil"
  grpc_server (some impl) = ok (record { impl = impl; verbs = optional_verbs_of impl })

  -- The handlers that pass their request on, and the Log handler, whose stream outlives a nil return.
  abbrev pub grpc_info : GrpcAdapterServer Value Struct → Result String (Option InfoResponse)
  grpc_info s = s.impl.info

  abbrev pub grpc_open_session : GrpcAdapterServer Value Struct → OpenSessionRequest → Option String
  grpc_open_session s req = s.impl.open_session req

  abbrev pub grpc_execute :
      GrpcAdapterServer Value Struct → ExecuteRequest → (ℕ → Option String) → Delivery
  grpc_execute s req send = s.impl.execute req send

  abbrev pub grpc_log_stream :
      GrpcAdapterServer Value Struct → LogRequest → (ℕ → Option String) → Bool → LogStream
  grpc_log_stream s req send ended = grpc_log (s.impl.log req send).answer ended

  abbrev pub grpc_permissions : GrpcAdapterServer Value Struct → List Round → Served
  grpc_permissions s rounds = s.impl.permissions rounds

  abbrev pub grpc_close_session : GrpcAdapterServer Value Struct → String → Option String
  grpc_close_session s id = s.impl.close_session id

  abbrev pub info_of_impl :
      Option (Service Value Struct) → Option (Result String (Option InfoResponse))
  info_of_impl none = none
  info_of_impl (some impl) = some impl.info

  abbrev pub after_emission : Process Value Struct → Emission → Process Value Struct
  after_emission serves not_requested = serves
  after_emission serves exits_one = exits
  after_emission serves (handled b) = printed b

-- The spec's service is given `text`, the texts of errors, structpb's encodings and package v2's framer.
module _ {Any Value Struct : Type 0} (read : String → Result String String)
    (text : SpecError → String) (new_value : Any → Result String Value)
    (new_struct : List (String × Any) → Result String Struct) (framing : Framing Any) where
  abbrev pub some_info : Result SpecError InfoResponse → Result String (Option InfoResponse)
  some_info (ok info) = ok (some info)
  some_info (err e) = err (text e)

  -- specService.
  abbrev pub service_of : Spec Any → Service Value Struct
  service_of spec = record {
    info = some_info (derive_info read spec);
    open_session = open_session spec;
    execute = execute framing spec;
    log = log spec;
    permissions = serve_permissions spec;
    close_session = close_session spec;
    verbs = some (spec_verbs new_value new_struct spec);
  }

-- The process's arguments, what its standard output answers to a write, and the JSON encoder.
module _ {Value Struct : Type 0} (args : List String) (stdout : Bytes → Option String)
    (encode : ManifestDoc → Result String Bytes) where
  unfoldable pub serve : Option (Service Value Struct) → Process Value Struct
  serve impl = after_emission (plugin handshake_config ((adapter_name, impl) ∷ [])) (
      run_emit_manifest_if_requested args stdout
        (emit_manifest_from_service encode (info_of_impl impl)))

  module _ {Any : Type 0} (read : String → Result String String)
      (service : Spec Any → Service Value Struct) where
    abbrev pub serve_valid : Result SpecError (Spec Any) → Process Value Struct
    serve_valid (err e) = exits
    serve_valid (ok spec) =
        after_emission (serve (some (service spec)))
          (run_emit_manifest_if_requested args stdout (emit_manifest_from_spec encode read spec))

    unfoldable pub serve_spec : Option (Spec Any) → Process Value Struct
    serve_spec spec = serve_valid (spec_service spec)

abbrev pub or_text : String → String → String
or_text given default = if given == "" then default else given

-- The zero value of ServeRemoteOptions.
abbrev pub no_options : ServeRemoteOptions
no_options = record {
  host = "";
  tls_config = false;
  identity = record { name = ""; version = ""; digest = "" };
  accept_token = "";
  reconnect = false;
  initial_delay = pos 0;
  max_delay = pos 0;
}

abbrev pub options_or_empty : Option ServeRemoteOptions → ServeRemoteOptions
options_or_empty none = no_options
options_or_empty (some opts) = opts

-- The writes of ServeSpecRemote to its options.
abbrev pub identify : {Any : Type 0} → Spec Any → ServeRemoteOptions → ServeRemoteOptions
identify spec opts = record opts {
  identity = record {
    name = or_text opts.identity.name spec.name;
    version = or_text opts.identity.version spec.version;
    digest = opts.identity.digest;
  };
}

-- The outcome, and the caller's options as the call leaves them.
unfoldable pub serve_spec_remote :
    {Any : Type 0}
    → (RemoteHandshake → Result String Bytes)
    → Option (Spec Any)
    → Option ServeRemoteOptions
    → List Attempt
    → Result SpecError (Outcome × ServeRemoteOptions)
serve_spec_remote marshal spec opts attempts = do
  s ← spec_service spec
  let o = identify s (options_or_empty opts)
  ok (serve_remote marshal (some o) attempts, o)
