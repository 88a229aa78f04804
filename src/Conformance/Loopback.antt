-- ===== src/Conformance/Loopback.antt =====
-- adapterhost/conformance.go, serveAdapterOnLoopback and the stop that its caller defers: what is opened and
-- closed around a body, in order. Listening and making a client answer through parameters.
pub mod Closed
use criteria_go_adapter_sdk.Base.{List, [], ◌∷◌, ◌++◌, Option, none, some, String, Result, ok, err}

-- The listener, the gRPC server on it, and the client's connection, which the body uses.
pub data LoopbackOp : Type 0 where
  listens serves connects uses_client closes_client stops_server closes_listener : LoopbackOp

pub data LoopbackError : Type 0 where
  listen_failed client_failed : String → LoopbackError

abbrev pub client_made : Option String → List LoopbackOp × Result LoopbackError (Unit {0})
client_made none = (listens ∷ serves ∷ connects ∷ [], ok tt)
client_made (some e) =
    (listens ∷ serves ∷ stops_server ∷ closes_listener ∷ [], err (client_failed e))

-- `listen` and `new_client` are the errors of net.Listen and grpc.NewClient.
abbrev pub serve_adapter_on_loopback :
    Option String → Option String → List LoopbackOp × Result LoopbackError (Unit {0})
serve_adapter_on_loopback (some e) new_client = ([], err (listen_failed e))
serve_adapter_on_loopback none new_client = client_made new_client

abbrev pub stop : List LoopbackOp
stop = closes_client ∷ stops_server ∷ closes_listener ∷ []

-- The body behind a start that succeeded, and the deferred stop.
module _ {ℓ κ} {E : Type ℓ} {A : Type κ} (wrap : LoopbackError → E) where
  abbrev pub behind_start :
      List LoopbackOp × Result LoopbackError (Unit {0}) → Result E A → List LoopbackOp × Result E A
  behind_start (ops, err e) body = (ops, err (wrap e))
  behind_start (ops, ok tt) body = (ops ++ uses_client ∷ stop, body)

  unfoldable pub with_loopback :
      Option String → Option String → Result E A → List LoopbackOp × Result E A
  with_loopback listen new_client body =
      behind_start (serve_adapter_on_loopback listen new_client) body
