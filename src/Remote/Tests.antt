-- ===== src/Remote/Tests.antt =====
-- A host that fails twice, connects, and fails again.
use criteria_go_adapter_sdk.Base.{
  Option, err, String, false, ◌≡◌, refl, List, [], ◌∷◌, map, some, none, true, ok, arith, eq_iff,
}
use criteria_go_adapter_sdk.Base.Int.{pos}
use criteria_go_adapter_sdk.Remote.{
  bad_ca, load_client_tls, tls_dial, net_dial, dial_remote, ServeRemoteOptions, Attempt,
  serve_remote, serve_remote_once, redialing, redial,
}
use criteria_go_adapter_sdk.Remote.Backoff.{waits, serve_remote-waits}

abbrev options : ServeRemoteOptions
options = record {
  host = "host:7778";
  tls_config = false;
  identity = record { name = "greeter"; version = "0.1.0"; digest = "" };
  accept_token = "";
  reconnect = true;
  initial_delay = pos 3;
  max_delay = pos 10;
}

abbrev fails : Attempt
fails = record { dial = λ d. some "refused"; write = λ line. none; served = none }

abbrev connects : Attempt
connects = record { dial = λ d. none; write = λ line. none; served = some "reset" }

abbrev attempts : List Attempt
attempts = fails ∷ fails ∷ fails ∷ connects ∷ fails ∷ []

serve_remote-waits_example :
    serve_remote (λ h. ok []) (some options) attempts
    ≡ redialing (map pos (waits (λ h. ok []) options 3 10 0 attempts))
serve_remote-waits_example =
    serve_remote-waits (λ h. ok []) options 3 10 attempts
      (λ p. ground (arith, eq_iff "host:7778" "")) refl refl refl (omega arith) (omega arith)
      (omega arith)

capped :
    serve_remote (λ h. ok []) (some options) attempts
    ≡ redialing (pos 3 ∷ pos 6 ∷ pos 10 ∷ pos 3 ∷ pos 6 ∷ [])
unfolding serve_remote redial serve_remote_once
capped = refl

-- A first delay above MaxDelay is slept in full.
uncapped :
    serve_remote
      (λ h. ok [])
      (some (record {
        host = "h";
        tls_config = false;
        identity = options.identity;
        accept_token = "";
        reconnect = true;
        initial_delay = pos 20;
        max_delay = pos 10;
      }))
      (fails ∷ connects ∷ [])
    ≡ redialing (pos 20 ∷ pos 20 ∷ [])
unfolding serve_remote redial serve_remote_once
uncapped = refl

-- TLS is for tcp addresses alone.
dials :
    (dial_remote "/run/criteria.sock" true ≡ net_dial "unix" "/run/criteria.sock")
    × ((dial_remote "host:7778" true ≡ tls_dial "host:7778")
        × (dial_remote "host:7778" false ≡ net_dial "tcp" "host:7778"))
dials = (refl, (refl, refl))

abbrev no_pool : Option String
no_pool = none

-- A CA file without a certificate.
no_ca :
    load_client_tls {Certificate = String}
      (λ cert key. ok "pair")
      (λ path. ok [])
      (λ pem. no_pool)
      "c"
      "k"
      "ca"
    ≡ err bad_ca
unfolding load_client_tls
no_ca = refl
