-- ===== src/Prelude/Integers.antt =====
-- Go's signed ints where the sign matters and the size does not: integers over the native numbers.
use Prim.Native.Nat.{ℕ}

pub data ℤ : Type 0 where
  pos : ℕ → ℤ
  negsuc : ℕ → ℤ
