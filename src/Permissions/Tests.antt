-- ===== src/Permissions/Tests.antt =====
-- The permissionless default on small streams.
use criteria_go_adapter_sdk.Base.{◌≡◌, [], ◌∷◌, ◌++◌, map, some, ok}
use criteria_go_adapter_sdk.Wire.{request, unset}
use criteria_go_adapter_sdk.Permissions.{plain, send_failed, allow, run_unimplemented_permissions}
use criteria_go_adapter_sdk.Permissions.Acks.{
  IsEnd, Returns, heard, script, run_unimplemented_permissions-acks,
  run_unimplemented_permissions-fails_closed,
}

run_unimplemented_permissions-acks_example :
    ((run_unimplemented_permissions
        (script (request "a" ∷ unset ∷ request "b" ∷ []) (plain "reset") [])).decisions
      ≡ record { request_id = "a"; decision = "allow" }
        ∷ record { request_id = "b"; decision = "allow" }
        ∷ [])
    × Returns IsEnd
        (plain "reset")
        (run_unimplemented_permissions
          (script (request "a" ∷ unset ∷ request "b" ∷ []) (plain "reset") [])).ending
run_unimplemented_permissions-acks_example =
    run_unimplemented_permissions-acks (request "a" ∷ unset ∷ request "b" ∷ []) (plain "reset") []

run_unimplemented_permissions-fails_closed_example :
    run_unimplemented_permissions (
      map heard (request "a" ∷ [])
      ++ record { recv = ok (request "b"); send = some "broken" } ∷ heard (request "c") ∷ [])
    ≡ record { decisions = allow "a" ∷ allow "b" ∷ []; ending = send_failed "broken" }
run_unimplemented_permissions-fails_closed_example =
    run_unimplemented_permissions-fails_closed (request "a" ∷ []) "b" "broken"
      (heard (request "c") ∷ [])
