-- ===== src/Libk/Pow2.antt =====
-- `round_to_nearest_pow2` of libs/libk/include/libk/math.h, on 64-bit words.
pub mod Ones
pub mod Least
use mirus.Base.{ℕ, ◌+◌, ◌-◌, ◌/◌, ◌%◌, ◌^◌, ◌==◌, if◌then◌else◌}
use Prim.Native.Nat.{bit_or}

-- `n |= n >> shift`
pub fill : (shift : ℕ) → ℕ → ℕ
fill shift n = bit_or n (n / 2 ^ shift)

unfoldable pub round_to_nearest_pow2 : ℕ → ℕ
unfolding fill
round_to_nearest_pow2 n =
    if n == 0
    then 1
    else (fill 32 (fill 16 (fill 8 (fill 4 (fill 2 (fill 1 (n - 1)))))) + 1) % 2 ^ 64
