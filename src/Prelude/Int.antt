-- ===== src/Prelude/Int.antt =====
-- The integers over the native numbers, under the library's names.
use Prim.Native.Nat.{ℕ}

pub data ℤ : Type 0 where
  pos negsuc : ℕ → ℤ
