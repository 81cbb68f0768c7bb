-- ===== src/Base/Signed.antt =====
-- Signed integers, over the native numbers: `pos n` is n, and `negsuc n` is -1 - n.
use Prim.Native.Nat.{ℕ}

pub data ℤ : Type 0 where
  pos negsuc : ℕ → ℤ
