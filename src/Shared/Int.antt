-- ===== src/Shared/Int.antt =====
-- The integers, where the source takes a signed number from a caller.
use Prim.Native.Nat.{ℕ}

-- `negsuc n` is -(n + 1).
pub data ℤ : Type 0 where
  pos : ℕ → ℤ
  negsuc : ℕ → ℤ
