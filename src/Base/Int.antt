-- ===== src/Base/Int.antt =====
-- C's `int` and `int64_t` values: `negsuc n` is -(n + 1).
use mirus.Base.{ℕ}

pub data ℤ : Type 0 where
  pos : ℕ → ℤ
  negsuc : ℕ → ℤ
