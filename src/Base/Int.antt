-- ===== src/Base/Int.antt =====
-- The signed integers, over the native numbers: only `i32` levels are passed through.
use Prim.Native.Nat.{ℕ}

-- `negsuc n` is -(n + 1).
pub data ℤ : Type 0 where
  pos : ℕ → ℤ
  negsuc : ℕ → ℤ
