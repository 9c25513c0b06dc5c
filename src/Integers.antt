-- ===== src/Integers.antt =====
-- Integers over the native natural numbers.
use kody_celld.Prelude.{ℕ}

pub data ℤ : Type 0 where
  pos : ℕ → ℤ
  -- `negsuc n` is -(n + 1).
  negsuc : ℕ → ℤ
