-- ===== src/Prelude/Int.antt =====
-- Signed integers over the native numbers, under the library's names: what the source holds in
-- an int32 and compares or converts.
use Prim.Native.Nat.{ℕ, ◌-◌, ◌%◌}
use mathlib.Core.Bool.{Bool, true, false}
use yusui.Prelude.Tests.{ltb}

-- `negsuc n` is -(n + 1).
pub data ℤ : Type 0 where
  pos : ℕ → ℤ
  negsuc : ℕ → ℤ

-- `a < n` and `n < a` for a constant n ≥ 0.
abbrev pub lt_const : ℤ → ℕ → Bool
lt_const (pos a) n = ltb a n
lt_const (negsuc a) n = true

abbrev pub gt_const : ℤ → ℕ → Bool
gt_const (pos a) n = ltb n a
gt_const (negsuc a) n = false

-- A value that a test has shown not to be negative.
abbrev pub to_nat : ℤ → ℕ
to_nat (pos a) = a
to_nat (negsuc a) = 0

-- The conversion `uint32(x)` of an int32: two's complement.
abbrev pub to_uint32 : ℤ → ℕ
to_uint32 (pos a) = a % 4294967296
to_uint32 (negsuc a) = (4294967295 - a % 4294967296) % 4294967296
