-- ===== src/Base/Int.antt =====
-- Signed integers, `negsuc n` being -(n + 1), and Go's int64 by its bit pattern.
use Prim.Native.Nat.{ℕ, ◌-◌, ◌*◌, ◌+◌, ◌%◌, ◌^◌}
use mathlib.Core.Bool.{Bool, true, false, not, ◌||◌}
use criteria_go_adapter_sdk.Base.Tests.{ltb, if◌then◌else◌}

pub data ℤ : Type 0 where
  pos : ℕ → ℤ
  negsuc : ℕ → ℤ

-- The int64 with a 64-bit pattern.
abbrev pub int64 : ℕ → ℤ
int64 n = let m = n % 2 ^ 64 in if ltb m (2 ^ 63) then pos m else negsuc (2 ^ 64 - m - 1)

-- `n * 2` on an int64.
abbrev pub double : ℤ → ℤ
double (pos n) = int64 (n * 2)
double (negsuc n) = int64 (2 ^ 64 - (n * 2 + 2) % 2 ^ 64)

abbrev pub int_gt : ℤ → ℤ → Bool
int_gt (pos m) (pos n) = ltb n m
int_gt (pos m) (negsuc n) = true
int_gt (negsuc m) (pos n) = false
int_gt (negsuc m) (negsuc n) = ltb m n

abbrev pub int_eq : ℤ → ℤ → Bool
int_eq a b = not (int_gt a b || int_gt b a)
