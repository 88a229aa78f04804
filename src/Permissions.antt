-- ===== src/Permissions.antt =====
-- adapterhost/service.go: the permission stream, and the permissionless default that answers it,
-- runUnimplementedPermissions.
pub mod Acks
mod Tests
use criteria_go_adapter_sdk.Base.{
  ℕ, String, Bool, true, false, List, [], ◌∷◌, Option, none, some, Result, ok, err, if◌then◌else◌,
}
use criteria_go_adapter_sdk.Wire.{
  PermissionEvent, request, cancel, tool_call_result, unset, PermissionDecision,
}

-- status.Code of a stream error that carries one; io.EOF and other errors carry none.
pub data Code : Type 0 where
  code_ok code_canceled code_unimplemented : Code
  code_other : ℕ → Code

pub data RecvError : Type 0 where
  eof : RecvError
  with_code : Code → RecvError
  plain : String → RecvError

-- One round of a loop over the stream: what `Recv` returns, and what a `Send` in that round would.
pub record Round : Type 0 where
  pub recv : Result RecvError PermissionEvent
  pub send : Option String

-- Why the loop is no longer running: it returned (`Left` an error, or nil), or it blocks in `Recv`.
pub data Ending : Type 0 where
  returned_nil : Ending
  recv_failed : RecvError → Ending
  send_failed : String → Ending
  blocked : Ending

pub record Served : Type 0 where
  pub decisions : List PermissionDecision
  pub ending : Ending

abbrev pub allow : String → PermissionDecision
allow id = record { request_id = id; decision = "allow" }

-- `errors.Is(err, io.EOF) || status.Code(err) == codes.Canceled`
abbrev pub is_normal_end : RecvError → Bool
is_normal_end eof = true
is_normal_end (with_code code_canceled) = true
is_normal_end _ = false

-- A decision that went out before the rest of the loop.
abbrev pub after : PermissionDecision → Served → Served
after d s = record s { decisions = d ∷ s.decisions }

-- `decisions` are those handed to `Send`, the failing one included.
pub run_unimplemented_permissions : List Round → Served
run_unimplemented_permissions [] = record { decisions = []; ending = blocked }
run_unimplemented_permissions (r ∷ rs) =
    let rest = run_unimplemented_permissions rs in
    elim r.recv [
      | err e ↦ record {
        decisions = [];
        ending = if is_normal_end e then returned_nil else recv_failed e;
      }
      | ok (request id) ↦ elim r.send [
        | some e ↦ record { decisions = allow id ∷ []; ending = send_failed e }
        | none ↦ after (allow id) rest
      ]
      | ok _ ↦ rest
    ]
