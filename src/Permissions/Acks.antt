-- ===== src/Permissions/Acks.antt =====
-- What the permissionless default answers.
use criteria_go_adapter_sdk.Base.{
  arith, inr, inl, String, ◌≡◌, refl, ap, List, [], ◌∷◌, ◌++◌, map, none, some, ok, err,
  if◌then◌else◌, ◌⊎◌,
}
use criteria_go_adapter_sdk.Wire.{PermissionEvent, request, cancel, tool_call_result, unset}
use criteria_go_adapter_sdk.Permissions.{
  PermissionDecision, Ending, eof, RecvError, Round, returned_nil, recv_failed, send_failed, allow,
  after, is_normal_end, run_unimplemented_permissions, with_code, code_canceled, code_ok,
  code_unimplemented, code_other, plain,
}

-- The request ids of a stretch of events.
abbrev pub request_ids : List PermissionEvent → List String
request_ids [] = []
request_ids (request id ∷ evs) = id ∷ request_ids evs
request_ids (_ ∷ evs) = request_ids evs

abbrev pub heard : PermissionEvent → Round
heard ev = record { recv = ok ev; send = none }

abbrev pub ended_by : RecvError → Round
ended_by e = record { recv = err e; send = none }

abbrev pub script : List PermissionEvent → RecvError → List Round → List Round
script evs e rest = map heard evs ++ ended_by e ∷ rest

-- One decision for each id: it, with the word "allow".
abbrev pub acks_of : List String → List PermissionDecision
acks_of [] = []
acks_of (id ∷ ids) = record { request_id = id; decision = "allow" } ∷ acks_of ids

-- The loop returns nil on an end of the stream that is normal, and the stream's error on any other.
abbrev pub Returns : (RecvError → Type 0) → RecvError → Ending → Type 0
Returns IsNormal e ending =
    ((ending ≡ returned_nil) × IsNormal e) ⊎ ((ending ≡ recv_failed e) × (¬ IsNormal e))

-- io.EOF, or a status of Canceled.
abbrev pub IsEnd : RecvError → Type 0
IsEnd e = (e ≡ eof) ⊎ (e ≡ with_code code_canceled)

map-allow : (ids : List String) → map allow ids ≡ acks_of ids
map-allow [] = refl
map-allow (id ∷ ids) = ap (λ ds. allow id ∷ ds) (map-allow ids)

is_normal_end-Returns :
    (e : RecvError) → Returns IsEnd e (if is_normal_end e then returned_nil else recv_failed e)
is_normal_end-Returns eof = inl (refl, inl refl)
is_normal_end-Returns (with_code code_canceled) = inl (refl, inr refl)
is_normal_end-Returns (with_code code_ok) = inr (refl, λ h. ground arith)
is_normal_end-Returns (with_code code_unimplemented) = inr (refl, λ h. ground arith)
is_normal_end-Returns (with_code (code_other n)) = inr (refl, λ h. ground arith)
is_normal_end-Returns (plain s) = inr (refl, λ h. ground arith)

run_unimplemented_permissions-script :
    (evs : List PermissionEvent) (e : RecvError) (rest : List Round)
    → run_unimplemented_permissions (script evs e rest) ≡ record {
      decisions = map allow (request_ids evs);
      ending = if is_normal_end e then returned_nil else recv_failed e;
    }
unfolding run_unimplemented_permissions
run_unimplemented_permissions-script [] e rest = refl
run_unimplemented_permissions-script (request id ∷ evs) e rest =
    ap (after (allow id)) (run_unimplemented_permissions-script evs e rest)
run_unimplemented_permissions-script (cancel c ∷ evs) e rest =
    run_unimplemented_permissions-script evs e rest
run_unimplemented_permissions-script (tool_call_result r ∷ evs) e rest =
    run_unimplemented_permissions-script evs e rest
run_unimplemented_permissions-script (unset ∷ evs) e rest =
    run_unimplemented_permissions-script evs e rest

-- Over a healthy stream the default answers each request, in order, with one decision that carries its id and
-- the word "allow", and nothing else; it returns nil exactly when the stream ends with io.EOF or a
-- status of Canceled, and the stream's error otherwise; and it reads nothing behind the end.
pub run_unimplemented_permissions-acks :
    (evs : List PermissionEvent) (e : RecvError) (rest : List Round)
    → ((run_unimplemented_permissions (script evs e rest)).decisions ≡ acks_of (request_ids evs))
      × Returns IsEnd e (run_unimplemented_permissions (script evs e rest)).ending
run_unimplemented_permissions-acks evs e rest =
    rw (run_unimplemented_permissions-script evs e rest)
      (map-allow (request_ids evs), is_normal_end-Returns e)

-- A decision that cannot be sent ends the loop with the error of that send: the loop fails closed, and
-- answers nothing behind it.
pub run_unimplemented_permissions-fails_closed :
    (evs : List PermissionEvent) (id failure : String) (rest : List Round)
    → run_unimplemented_permissions
        (map heard evs ++ record { recv = ok (request id); send = some failure } ∷ rest)
      ≡ record {
        decisions = map allow (request_ids evs) ++ allow id ∷ [];
        ending = send_failed failure;
      }
unfolding run_unimplemented_permissions
run_unimplemented_permissions-fails_closed [] id failure rest = refl
run_unimplemented_permissions-fails_closed (request j ∷ evs) id failure rest =
    ap (after (allow j)) (run_unimplemented_permissions-fails_closed evs id failure rest)
run_unimplemented_permissions-fails_closed (cancel c ∷ evs) id failure rest =
    run_unimplemented_permissions-fails_closed evs id failure rest
run_unimplemented_permissions-fails_closed (tool_call_result r ∷ evs) id failure rest =
    run_unimplemented_permissions-fails_closed evs id failure rest
run_unimplemented_permissions-fails_closed (unset ∷ evs) id failure rest =
    run_unimplemented_permissions-fails_closed evs id failure rest
