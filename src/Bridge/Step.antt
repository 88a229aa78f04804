-- ===== src/Bridge/Step.antt =====
-- The critical sections of the bridge as steps that any number of goroutines (callers, dispatch
-- loops, dying streams) make in any order.
use criteria_go_adapter_sdk.Base.{ℕ, String, List, [], ◌∷◌, Option, some}
use criteria_go_adapter_sdk.Base.Panic.{◌>>=◌}
use criteria_go_adapter_sdk.Wire.{ToolCallResult, PermissionCancel}
use criteria_go_adapter_sdk.Bridge.{
  Bridge, register, remove, take_grant, cache_unsupported, mark_granted, route_cancel, route_result,
  collect, close_one,
}

pub data Op : Type 0 where
  registers removes takes_grant caches grants : String → Op
  cancels : PermissionCancel → Op
  results : ToolCallResult → Op
  collects : Op
  closes : ℕ → Op

unfoldable pub step : Op → Bridge → Option Bridge
step (registers id) b = some (register id b).0
step (removes id) b = some (remove id b)
step (takes_grant id) b = some (take_grant id b).0
step (caches sid) b = some (cache_unsupported sid b)
step (grants id) b = some (mark_granted id b)
step (cancels c) b = route_cancel c b
step (results r) b = route_result r b
step collects b = some (collect b)
step (closes p) b = close_one p b

unfoldable pub run : List Op → Bridge → Option Bridge
run [] b = some b
run (op ∷ ops) b = do b' ← step op b; run ops b'
