-- ===== src/Spec/Advertised.antt =====
-- What Info lists of the lifecycle verbs and what their RPCs answer: set-what-you-declare.
use criteria_go_adapter_sdk.Spec.Inspected.{Encoded, inspect_response_from_info-Encoded}
use criteria_go_adapter_sdk.Base.{
  String, ◌<>◌, ◌≡◌, ◌∙◌, ap, sym, refl, ◌⊎◌, inl, inr, Bool, true, false, List, Option, none, some,
  Result, ok, err, ◌>>=◌, contains, arith,
}
use criteria_go_adapter_sdk.Wire.{RestoreRequest, InfoResponse, SnapshotResponse}
use criteria_go_adapter_sdk.Spec.{
  Spec, ServiceError, unimplemented, is_set, SnapshotState, InspectInfo,
}
use criteria_go_adapter_sdk.Spec.Info.{
  derive_info, supported_features_from_spec, verb_flags, set_names, override,
}
use criteria_go_adapter_sdk.Spec.Schemas.{info_of-derive_info}
use criteria_go_adapter_sdk.Spec.Verbs.{
  run_verb, run_snapshot, run_inspect, inspect_response_from_info, spec_verbs, grpc_pause,
  grpc_resume, grpc_snapshot, grpc_restore, grpc_inspect, OptionalVerbs, restore_input,
  snapshot_response, handled,
}

-- A request of one of the five verbs.
pub data VerbRequest : Type 0 where
  pause resume snapshot inspect : String → VerbRequest
  restore : RestoreRequest → VerbRequest

-- The verb's feature and its RPC.
abbrev pub feature_of : VerbRequest → String
feature_of (pause id) = "pause"
feature_of (resume id) = "resume"
feature_of (snapshot id) = "snapshot"
feature_of (inspect id) = "inspect"
feature_of (restore r) = "restore"

abbrev pub method_of : VerbRequest → String
method_of (pause id) = "Pause"
method_of (resume id) = "Resume"
method_of (snapshot id) = "Snapshot"
method_of (inspect id) = "Inspect"
method_of (restore r) = "Restore"

abbrev pub error_of : {A : Type 0} → Result ServiceError A → Option ServiceError
error_of (ok a) = none
error_of (err e) = some e

-- A handler is set, and the error of its RPC, if any, is the one that it returns.
abbrev pub Ran : {A : Type 0} → Option (A → Option ServiceError) → A → Option ServiceError → Type 0
Ran {A} handler a error = (f : A → Option ServiceError) × (handler ≡ some f) × (error ≡ f a)

-- The error of a handler that failed, unchanged, or an answer that relates to what it returned.
abbrev pub Passes :
    {A B : Type 0}
    → (A → Result ServiceError B → Type 0)
    → Result ServiceError A
    → Result ServiceError B
    → Type 0
Passes R (err e) answer = answer ≡ err e
Passes R (ok a) answer = R a answer

-- A handler is set, and what it returns is passed on so.
abbrev pub Returned :
    {A B : Type 0}
    → (A → Result ServiceError B → Type 0)
    → Option (String → Result ServiceError A)
    → String
    → Result ServiceError B
    → Type 0
Returned {A} R handler id answer =
    (f : String → Result ServiceError A) × (handler ≡ some f) × Passes R (f id) answer

abbrev pub SameState : SnapshotState → Result ServiceError SnapshotResponse → Type 0
SameState s answer =
    (r : SnapshotResponse) × (answer ≡ ok r)
    × ((r.state ≡ s.state) × (r.schema_version ≡ s.schema_version))

-- The refusal of a verb, by its RPC's name.
abbrev pub refusal : String → ServiceError
refusal method = unimplemented ("method " <> method <> " not implemented")

-- Set with P, or unset with Q.
abbrev Either : Bool → Type 0 → Type 0 → Type 0
Either set P Q = ((set ≡ true) × P) ⊎ ((set ≡ false) × Q)

handled_lem : (o : Option ServiceError) → error_of (handled o) ≡ o
handled_lem none = refl
handled_lem (some e) = refl

run_verb_lem :
    {A : Type 0} (method : String) (o : Option (A → Option ServiceError)) (a : A)
    → Either
        (is_set o)
        (Ran o a (error_of (run_verb method o a)))
        (error_of (run_verb method o a) ≡ some (refusal method))
run_verb_lem method none a = inr (refl, refl)
run_verb_lem method (some f) a = inl (refl, (f, refl, handled_lem (f a)))

snapshot-Passes :
    (r : Result ServiceError SnapshotState)
    → Passes SameState r (do s ← r; ok (snapshot_response s))
snapshot-Passes (err e) = refl
snapshot-Passes (ok s) = (snapshot_response s, refl, (refl, refl))

run_snapshot_lem :
    (o : Option (String → Result ServiceError SnapshotState)) (id : String)
    → Either
        (is_set o)
        (Returned SameState o id (run_snapshot o id))
        (error_of (run_snapshot o id) ≡ some (refusal "Snapshot"))
run_snapshot_lem none id = inr (refl, refl)
run_snapshot_lem (some f) id = inl (refl, (f, refl, snapshot-Passes (f id)))

module _ {Any Value Struct : Type 0} (new_value : Any → Result String Value)
    (new_struct : List (String × Any) → Result String Struct) where
  inspect-Passes :
      (r : Result ServiceError (InspectInfo Any))
      → Passes
          (Encoded new_value new_struct)
          r
          (r >>= inspect_response_from_info new_value new_struct)
  inspect-Passes (err e) = refl
  inspect-Passes (ok info) = inspect_response_from_info-Encoded new_value new_struct info

  run_inspect_lem :
      (o : Option (String → Result ServiceError (InspectInfo Any))) (id : String)
      → Either
          (is_set o)
          (Returned (Encoded new_value new_struct) o id (run_inspect new_value new_struct o id))
          (error_of (run_inspect new_value new_struct o id) ≡ some (refusal "Inspect"))
  unfolding run_inspect
  run_inspect_lem none id = inr (refl, refl)
  run_inspect_lem (some f) id = inl (refl, (f, refl, inspect-Passes (f id)))

  abbrev served : Spec Any → Option (OptionalVerbs Value Struct)
  served spec = some (spec_verbs new_value new_struct spec)

  -- On an adapter that serves the spec: the verb's handler is set, is called with the request's
  -- session id (Restore's with the state and its version too), and what it returns is answered.
  abbrev pub Calls : Spec Any → VerbRequest → Type 0
  Calls spec (pause id) = Ran spec.pause id (error_of (grpc_pause (served spec) id))
  Calls spec (resume id) = Ran spec.resume id (error_of (grpc_resume (served spec) id))
  Calls spec (snapshot id) = Returned SameState spec.snapshot id (grpc_snapshot (served spec) id)
  Calls spec (inspect id) =
      Returned (Encoded new_value new_struct) spec.inspect id (grpc_inspect (served spec) id)
  Calls spec (restore r) =
      Ran spec.restore
        (record { session_id = r.session_id; state = r.state; schema_version = r.schema_version })
        (error_of (grpc_restore (served spec) r))

  -- The error of the verb's RPC.
  abbrev pub verb_error : Spec Any → VerbRequest → Option ServiceError
  verb_error spec (pause id) = error_of (grpc_pause (served spec) id)
  verb_error spec (resume id) = error_of (grpc_resume (served spec) id)
  verb_error spec (snapshot id) = error_of (grpc_snapshot (served spec) id)
  verb_error spec (inspect id) = error_of (grpc_inspect (served spec) id)
  verb_error spec (restore r) = error_of (grpc_restore (served spec) r)

  abbrev pub has_handler : Spec Any → VerbRequest → Bool
  has_handler spec (pause id) = is_set spec.pause
  has_handler spec (resume id) = is_set spec.resume
  has_handler spec (snapshot id) = is_set spec.snapshot
  has_handler spec (inspect id) = is_set spec.inspect
  has_handler spec (restore r) = is_set spec.restore

  listed :
      (spec : Spec Any) (req : VerbRequest)
      → contains (feature_of req) (set_names (verb_flags spec)) ≡ has_handler spec req
  listed spec (pause id) = ground arith
  listed spec (resume id) = ground arith
  listed spec (snapshot id) = ground arith
  listed spec (inspect id) = ground arith
  listed spec (restore r) = ground arith

  answered :
      (spec : Spec Any) (req : VerbRequest)
      → Either
          (has_handler spec req)
          (Calls spec req)
          (verb_error spec req ≡ some (refusal (method_of req)))
  unfolding spec_verbs
  answered spec (pause id) = run_verb_lem "Pause" spec.pause id
  answered spec (resume id) = run_verb_lem "Resume" spec.resume id
  answered spec (snapshot id) = run_snapshot_lem spec.snapshot id
  answered spec (inspect id) = run_inspect_lem spec.inspect id
  answered spec (restore r) = run_verb_lem "Restore" spec.restore (restore_input r)

  info-listed :
      (read : String → Result String String) (spec : Spec Any) (info : InfoResponse)
      (req : VerbRequest)
      → derive_info read spec ≡ ok info
      → spec.supported_features ≡ none
      → contains (feature_of req) info.supported_features ≡ has_handler spec req
  unfolding supported_features_from_spec
  info-listed read spec info req derived unset =
      let (ws, e) = info_of-derive_info read spec info derived in
      ap (λ i. contains (feature_of req) i.supported_features) (sym e)
      ∙ (ap (λ o. contains (feature_of req) (override o (set_names (verb_flags spec)))) unset
          ∙ listed spec req)

  -- Where a spec leaves the features to be derived and Info answers, a lifecycle verb is in one of two
  -- cases, whatever the request. Info lists its feature, and its RPC calls the spec's handler and answers
  -- what that returns: its error unchanged (Unimplemented too, if it is that), nothing, Snapshot's state
  -- and version, or Inspect's info, with its fields in order and every value encoded, or the error of one
  -- that cannot be. Or Info does not list it, the spec sets no handler, and
  -- the RPC is refused as Unimplemented with the message "method M not implemented".
  pub supported_features-served :
      (read : String → Result String String) (spec : Spec Any) (info : InfoResponse)
      (req : VerbRequest)
      → derive_info read spec ≡ ok info
      → spec.supported_features ≡ none
      → ((contains (feature_of req) info.supported_features ≡ true) × Calls spec req)
        ⊎ ((contains (feature_of req) info.supported_features ≡ false)
            × ((has_handler spec req ≡ false)
                × (verb_error spec req
                    ≡ some (unimplemented ("method " <> method_of req <> " not implemented")))))
  supported_features-served read spec info req derived unset =
      let e = info-listed read spec info req derived unset in
      elim (answered spec req) [
        | inl (set, calls) ↦ inl (e ∙ set, calls)
        | inr (not_set, refused) ↦ inr (e ∙ not_set, (not_set, refused))
      ]
