-- ===== src/Base/Numbers.antt =====
-- Go's `int`, of which the sign is read.
use Prim.Native.Nat.{ℕ}

-- `negsuc n` is -(n + 1).
pub data ℤ : Type 0 where
  pos : ℕ → ℤ
  negsuc : ℕ → ℤ
