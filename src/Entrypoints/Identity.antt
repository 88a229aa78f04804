-- ===== src/Entrypoints/Identity.antt =====
-- The identity under which ServeSpecRemote phones home.
use criteria_go_adapter_sdk.Base.{
  ◌∙◌, sym, sym, String, ◌≡◌, ◌≢◌, refl, ◌⊎◌, inl, inr, List, Option, some, Result, ok,
  String-cases, arith,
}
use criteria_go_adapter_sdk.Wire.{Bytes}
use criteria_go_adapter_sdk.Spec.{Spec}
use criteria_go_adapter_sdk.Spec.Validate.{spec_service}
use criteria_go_adapter_sdk.Spec.Valid.{IsValid, validate_iff}
use criteria_go_adapter_sdk.Remote.{
  ServeRemoteOptions, RemoteHandshake, Attempt, handshake_of, serve_remote,
}
use criteria_go_adapter_sdk.Entrypoints.{or_text, options_or_empty, identify, serve_spec_remote}

-- A text that was given is kept, and an empty one is replaced.
abbrev pub Filled : String → String → String → Type 0
Filled given default t = ((given ≡ "") × (t ≡ default)) ⊎ ((given ≢ "") × (t ≡ given))

-- `o` is `opts` with the spec's name and version where none was given.
pub record Identified {Any : Type 0} (spec : Spec Any) (opts o : ServeRemoteOptions) : Type 0 where
  pub name : Filled opts.identity.name spec.name o.identity.name
  pub version : Filled opts.identity.version spec.version o.identity.version
  pub named : (handshake_of o.identity o.accept_token).name ≢ ""
  pub versioned : (handshake_of o.identity o.accept_token).version ≢ ""
  pub rest : record o { identity = opts.identity } ≡ opts
  pub digest : o.identity.digest ≡ opts.identity.digest

or_text-Filled : (given default : String) → Filled given default (or_text given default)
or_text-Filled given default = elim (String-cases given "") [
  | inl (e, p) ↦ inl (p, ground arith)
  | inr (e, p) ↦ inr (p, ground arith)
]

Filled-not_empty : (given default t : String) → default ≢ "" → Filled given default t → t ≢ ""
Filled-not_empty given default t d (inl (e, p)) q = d (sym p ∙ q)
Filled-not_empty given default t d (inr (e, p)) q = e (sym p ∙ q)

module _ {Any : Type 0} (spec : Spec Any) where
  identify-Identified :
      IsValid spec → (opts : ServeRemoteOptions) → Identified spec opts (identify spec opts)
  identify-Identified v opts =
      let name = or_text-Filled opts.identity.name spec.name in
      let version = or_text-Filled opts.identity.version spec.version in
      record {
        name = name;
        version = version;
        named = Filled-not_empty opts.identity.name spec.name _ v.named name;
        versioned = Filled-not_empty opts.identity.version spec.version _ v.versioned version;
        rest = refl;
        digest = refl;
      }

  -- On a valid spec, ServeSpecRemote is ServeRemote on the given options, or on empty ones, with the name and
  -- the version of the spec where none is given; neither is empty in the handshake, and
  -- all else is as it was given. The caller's options are left so.
  pub serve_spec_remote-Identified :
      (marshal : RemoteHandshake → Result String Bytes) (opts : Option ServeRemoteOptions)
      (attempts : List Attempt)
      → IsValid spec
      → (o : ServeRemoteOptions) × (serve_spec_remote marshal (some spec) opts attempts
          ≡ ok (serve_remote marshal (some o) attempts, o))
        × Identified spec (options_or_empty opts) o
  unfolding serve_spec_remote spec_service
  serve_spec_remote-Identified marshal opts attempts v = (
    identify spec (options_or_empty opts),
    rw ((validate_iff spec).1 v) refl,
    identify-Identified v (options_or_empty opts),
  )
