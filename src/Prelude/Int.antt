-- ===== src/Prelude/Int.antt =====
-- Python's integers, where a caller may pass a negative one.
use Prim.Native.Nat.{ℕ}

-- `negsuc n` is -(n + 1)
pub data ℤ : Type 0 where
  pos : ℕ → ℤ
  negsuc : ℕ → ℤ
