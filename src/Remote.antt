-- ===== src/Remote.antt =====
-- adapterhost/serve_remote.go. Dialing, writing, JSON and the gRPC server are not in the repository:
-- each attempt is given what they answer.
pub mod Backoff
pub mod Listener
mod Tests
use criteria_go_adapter_sdk.Base.{
  num_eq, ℕ, String, Bool, true, false, List, [], ◌∷◌, Option, none, some, Result, ok, err,
  wrap_err, ◌>>=◌, ◌++◌, ◌==◌, ◌&&◌, if◌then◌else◌,
}
use criteria_go_adapter_sdk.Base.Int.{ℤ, pos, negsuc, int64, double, int_gt}
use criteria_go_adapter_sdk.Base.Sort.{codes}
use criteria_go_adapter_sdk.Wire.{Bytes}

pub record RemoteIdentity : Type 0 where
  pub name : String
  pub version : String
  pub digest : String

-- `tls_config` says whether there is one.
pub record ServeRemoteOptions : Type 0 where
  pub host : String
  pub tls_config : Bool
  pub identity : RemoteIdentity
  pub accept_token : String
  pub reconnect : Bool
  pub initial_delay : ℤ
  pub max_delay : ℤ

pub record RemoteHandshake : Type 0 where
  pub name : String
  pub version : String
  pub digest : String
  pub token : String
  pub sdk_protocol_version : ℕ

abbrev pub handshake_of : RemoteIdentity → String → RemoteHandshake
handshake_of identity token = record {
  name = identity.name;
  version = identity.version;
  digest = identity.digest;
  token = token;
  sdk_protocol_version = 2;
}

-- `marshal` is json.Marshal and `write` what the connection answers to a write.
abbrev pub send_line : (Bytes → Option String) → Result String Bytes → Option String
send_line write (err e) = some e
send_line write (ok line) = write (line ++ 10 ∷ [])

abbrev pub send_handshake :
    (RemoteHandshake → Result String Bytes)
    → (Bytes → Option String)
    → RemoteIdentity
    → String
    → Option String
send_handshake marshal write identity token =
    send_line write (marshal (handshake_of identity token))

pub data RemoteError : Type 0 where
  opts_required host_required : RemoteError
  dial_failed : String → String → RemoteError
  handshake_failed : String → RemoteError
  serve_failed : String → RemoteError

-- The two ways to dial: net.Dial on a network, or tls.Dial on tcp.
pub data Dial : Type 0 where
  net_dial : String → String → Dial
  tls_dial : String → Dial

-- filepath.IsAbs, on Unix, and the test that the code has beside it.
abbrev pub is_abs : List ℕ → Bool
is_abs [] = false
is_abs (c ∷ cs) = num_eq c 47

abbrev pub network_of : String → String
network_of host = if is_abs (codes host) then "unix" else "tcp"

abbrev pub dial_remote : String → Bool → Dial
dial_remote host tls_config =
    if tls_config && network_of host == "tcp"
    then tls_dial host
    else net_dial (network_of host) host

-- One attempt as the world answers it: the dial, the write, and how serving ends.
pub record Attempt : Type 0 where
  pub dial : Dial → Option String
  pub write : Bytes → Option String
  pub served : Option String

abbrev pub serve_end : Option String → Option RemoteError
serve_end none = none
serve_end (some e) = some (serve_failed e)

abbrev pub after_handshake : Attempt → Option String → Bool × Option RemoteError
after_handshake a (some e) = (false, some (handshake_failed e))
after_handshake a none = (true, serve_end a.served)

abbrev pub or_default : ℤ → ℤ → ℤ
or_default d default = if int_gt d (pos 0) then d else default

abbrev pub cap : ℤ → ℤ → ℤ
cap max delay = if int_gt delay max then max else delay

-- crypto/tls's version 1.2.
abbrev pub version_tls12 : ℕ
version_tls12 = 0x0303

-- The fields of tls.Config that LoadClientTLS sets.
pub record TlsConfig (Certificate Pool : Type 0) : Type 0 where
  pub certificates : List Certificate
  pub root_cas : Pool
  pub min_version : ℕ

pub data TlsError : Type 0 where
  bad_key_pair bad_ca_file : String → TlsError
  bad_ca : TlsError

-- tls.LoadX509KeyPair, os.ReadFile, and what becomes of a new pool by AppendCertsFromPEM, if it takes any.
module _ {Certificate Pool : Type 0}
    (load_x509_key_pair : String → String → Result String Certificate)
    (read_file : String → Result String Bytes) (append_certs_from_pem : Bytes → Option Pool) where
  abbrev pub ca_pool : Option Pool → Result TlsError Pool
  ca_pool none = err bad_ca
  ca_pool (some pool) = ok pool

  unfoldable pub load_client_tls :
      String → String → String → Result TlsError (TlsConfig Certificate Pool)
  load_client_tls cert_path key_path ca_path = do
    cert ← wrap_err bad_key_pair (load_x509_key_pair cert_path key_path)
    pem ← wrap_err bad_ca_file (read_file ca_path)
    pool ← ca_pool (append_certs_from_pem pem)
    ok (record { certificates = cert ∷ []; root_cas = pool; min_version = version_tls12 })

-- It returns, or it has slept these times and goes on.
pub data Outcome : Type 0 where
  returned : Option RemoteError → Outcome
  redialing : List ℤ → Outcome
  -- The only attempt is under way.
  serving : Outcome

abbrev pub second : ℤ
second = pos 1000000000

module _ (marshal : RemoteHandshake → Result String Bytes) where
  abbrev pub after_dial : ServeRemoteOptions → Attempt → Option String → Bool × Option RemoteError
  after_dial opts a (some e) = (false, some (dial_failed opts.host e))
  after_dial opts a none =
      after_handshake a (send_handshake marshal a.write opts.identity opts.accept_token)

  -- Whether a connection was made, and the error.
  unfoldable pub serve_remote_once : ServeRemoteOptions → Attempt → Bool × Option RemoteError
  serve_remote_once opts a = after_dial opts a (a.dial (dial_remote opts.host opts.tls_config))

  -- The sleeps of the loop over the attempts so far.
  unfoldable pub redial : ServeRemoteOptions → ℤ → ℤ → ℤ → List Attempt → List ℤ
  redial opts initial max delay [] = []
  redial opts initial max delay (a ∷ rest) =
      let now = if (serve_remote_once opts a).0 then initial else delay in
      now ∷ redial opts initial max (cap max (double now)) rest

  abbrev pub serve_single : ServeRemoteOptions → List Attempt → Outcome
  serve_single opts [] = serving
  serve_single opts (a ∷ rest) = returned (serve_remote_once opts a).1

  abbrev pub serve_reconnecting : ServeRemoteOptions → List Attempt → Outcome
  serve_reconnecting opts attempts =
      let initial = or_default opts.initial_delay second in
      let max = or_default opts.max_delay (pos 30000000000) in
      redialing (redial opts initial max initial attempts)

  abbrev pub serve_checked : ServeRemoteOptions → List Attempt → Outcome
  serve_checked opts attempts =
      if opts.host == ""
      then returned (some host_required)
      else if opts.reconnect
      then serve_reconnecting opts attempts
      else serve_single opts attempts

  unfoldable pub serve_remote : Option ServeRemoteOptions → List Attempt → Outcome
  serve_remote none attempts = returned (some opts_required)
  serve_remote (some opts) attempts = serve_checked opts attempts
