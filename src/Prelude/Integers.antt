-- ===== src/Prelude/Integers.antt =====
-- Go's int and int64 as signed numbers: results of the parsers, and of conversions that wrap around.
use Prim.Native.Nat.{ℕ, ◌-◌, ◌^◌}
use owlwatch.Prelude.Tests.{ltb, if◌then◌else◌}

-- `negsuc n` is -(n + 1).
pub data ℤ : Type 0 where
  pos negsuc : ℕ → ℤ

-- `int64(n)` for a uint64
pub to_int64 : ℕ → ℤ
to_int64 n = if ltb n (2 ^ 63) then pos n else negsuc (2 ^ 64 - n - 1)
