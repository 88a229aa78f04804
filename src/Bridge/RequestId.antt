-- ===== src/Bridge/RequestId.antt =====
-- adapterhost/toolcall.go, newToolCallRequestID, with the counter requestIDFallback.
mod Digits
pub mod Unique
mod Tests
use Prim.Native.Char.{Char}
use Prim.Native.Nat.{◌/◌}
use Prim.Native.String.{char_at}
use criteria_go_adapter_sdk.Base.{
  ℕ, zero, suc, ◌+◌, ◌%◌, ◌^◌, String, ◌<>◌, List, [], ◌∷◌, Result, ok, err, if◌then◌else◌, num_eq,
}
use criteria_go_adapter_sdk.Wire.{Bytes}

-- encoding/hex's table, which also has the decimal digits.
abbrev pub digit : ℕ → Char
digit n = char_at "0123456789abcdef" n

-- hex.EncodeToString.
abbrev pub encode_to_string : Bytes → String
encode_to_string [] = ""
encode_to_string (b ∷ bs) =
    String.◌∷◌ (digit (b / 16)) (String.◌∷◌ (digit (b % 16)) (encode_to_string bs))

-- strconv's loop from the last digit on; a uint64 has at most 20 of them.
unfoldable pub emit_digits : ℕ → ℕ → String → String
emit_digits zero n out = out
emit_digits (suc k) n out =
    let rest = emit_digits k (n / 10) (String.◌∷◌ (digit (n % 10)) out) in
    if num_eq n 0 then out else rest

-- %d on a uint64.
unfoldable pub format_uint : ℕ → String
format_uint n = if num_eq n 0 then "0" else emit_digits 20 n ""

-- What rand.Read answers, and the counter before and behind the call; Add wraps around in uint64.
unfoldable pub new_tool_call_request_id : Result String Bytes → ℕ → String × ℕ
new_tool_call_request_id (ok buf) fallback = ("adapter-tool-" <> encode_to_string buf, fallback)
new_tool_call_request_id (err e) fallback =
    let next = (fallback + 1) % 2 ^ 64 in ("adapter-tool-fallback-" <> format_uint next, next)

-- The ids of calls, in the order of their additions to the counter.
unfoldable pub mint : List (Result String Bytes) → ℕ → List String
mint [] fallback = []
mint (draw ∷ draws) fallback =
    let (id, next) = new_tool_call_request_id draw fallback in id ∷ mint draws next
