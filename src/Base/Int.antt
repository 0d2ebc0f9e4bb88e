-- ===== src/Base/Int.antt =====
-- The value of a signed integer of whatever width: `negsuc n` is -n - 1.
use Prim.Native.Nat.{ℕ}

pub data ℤ : Type 0 where
  pos : ℕ → ℤ
  negsuc : ℕ → ℤ
