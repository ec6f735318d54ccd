-- ===== src/Base/Int.antt =====
-- `int16_t` values that the program compares with 0 and counts up: integers over the native ℕ.
use Prim.Native.Nat.{ℕ}

-- `negsuc n` is -(n + 1).
pub data ℤ : Type 0 where
  pos : ℕ → ℤ
  negsuc : ℕ → ℤ
