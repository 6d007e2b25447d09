-- ===== src/Base/Int.antt =====
-- Signed integers, and the conversion of a Go int to a 32-bit C int.
use Prim.Native.Nat.{ℕ, ◌-◌, ◌%◌, ◌^◌, ◌<◌}
use mathlib.Core.Path.{◌≡◌}
use native.Mathlib.Omega.{arith}
use grocksdb.Base.Tests.{ltb, if◌then◌else◌}

-- `negsuc n` is -(n + 1).
pub data ℤ : Type 0 where
  pos : ℕ → ℤ
  negsuc : ℕ → ℤ

-- The integer that a 32-bit pattern stands for.
abbrev pub signed32 : ℕ → ℤ
signed32 m = if ltb m (2 ^ 31) then pos m else negsuc (2 ^ 32 - m - 1)

-- `C.int(z)`: the low 32 bits of a two's complement integer, read as signed.
unfoldable pub c_int : ℤ → ℤ
c_int (pos n) = signed32 (n % 2 ^ 32)
c_int (negsuc n) = signed32 (2 ^ 32 - 1 - n % 2 ^ 32)

pub c_int-pos : (n : ℕ) → n < 2 ^ 31 → c_int (pos n) ≡ pos n
unfolding c_int
c_int-pos n h = ground arith

pub c_int-negsuc : (n : ℕ) → n < 2 ^ 31 → c_int (negsuc n) ≡ negsuc n
unfolding c_int
c_int-negsuc n h = ground arith

-- `int(v)` of a uint64.
unfoldable pub go_int : ℕ → ℤ
go_int v = if ltb v (2 ^ 63) then pos v else negsuc (2 ^ 64 - v - 1)
