-- ===== src/Base/Bits.antt =====
-- The library has no laws of `bit_xor` at variables. Here: what flipping one bit does.
use Prim.Native.Nat.{
  ℕ, zero, suc, ◌+◌, ◌*◌, ◌/◌, ◌%◌, ◌^◌, ◌≤◌, ◌<◌, bit_xor, digits, differ, bit_xor-bitwise,
}
use mathlib.Core.Path.{◌≡◌, refl}
use mathlib.Core.Logic.{◌⊎◌}
use native.Mathlib.Nat.{pow-suc}
use native.Mathlib.Omega.{arith}

abbrev xor_digits : ℕ → ℕ → ℕ → ℕ
xor_digits n a b = digits (λ d. d) differ n a b

differ_digit : (x y : ℕ) → x < 2 → y < 2 → differ x y ≡ (x + y) % 2
differ_digit zero y p q = omega arith
differ_digit (suc zero) zero p q = refl
differ_digit (suc zero) (suc zero) p q = refl
differ_digit (suc zero) (suc (suc y)) p q = absurd (omega arith)
differ_digit (suc (suc x)) y p q = absurd (omega arith)

differ_mod : (a b : ℕ) → differ (a % 2) (b % 2) ≡ (a + b) % 2
differ_mod a b = omega (arith, differ_digit (a % 2) (b % 2))

-- The count of digits to go does not matter once it covers the first number.
xor_digits_count : (n m a b : ℕ) → a ≤ n → a ≤ m → xor_digits n a b ≡ xor_digits m a b
xor_digits_count zero zero a b p q = refl
xor_digits_count zero (suc m) zero b p q = refl
xor_digits_count zero (suc m) (suc a) b p q = absurd (omega arith)
xor_digits_count (suc n) zero zero b p q = refl
xor_digits_count (suc n) zero (suc a) b p q = absurd (omega arith)
xor_digits_count (suc n) (suc m) zero b p q = refl
xor_digits_count (suc n) (suc m) (suc a) b p q =
    omega (arith, xor_digits_count n m (suc a / 2) (b / 2) (omega arith) (omega arith))

zero-bit_xor : (b : ℕ) → bit_xor 0 b ≡ b
zero-bit_xor b = bit_xor-bitwise 0 b

-- Exclusive or, lowest digit first.
pub bit_xor_step : (a b : ℕ) → bit_xor a b ≡ bit_xor (a / 2) (b / 2) * 2 + (a + b) % 2
bit_xor_step zero b = omega (arith, zero-bit_xor b, zero-bit_xor (b / 2))
bit_xor_step (suc a) b = omega (
  arith,
  differ_mod (suc a) b,
  bit_xor-bitwise (suc a) b,
  bit_xor-bitwise (suc a / 2) (b / 2),
  xor_digits_count a (suc a / 2) (suc a / 2) (b / 2) (omega arith) (omega arith),
)

bit_xor-zero_below : (n a : ℕ) → a ≤ n → bit_xor a 0 ≡ a
bit_xor-zero_below n zero h = refl
bit_xor-zero_below zero (suc a) h = absurd (omega arith)
bit_xor-zero_below (suc n) (suc a) h =
    omega (arith, bit_xor_step (suc a) 0, bit_xor-zero_below n (suc a / 2) (omega arith))

pub bit_xor-zero : (a : ℕ) → bit_xor a 0 ≡ a
bit_xor-zero a = bit_xor-zero_below a a (omega arith)

-- Flipping bit n adds 2 ^ n or takes it away.
pub bit_xor-pow : (n a : ℕ) → (bit_xor a (2 ^ n) ≡ a + 2 ^ n) ⊎ (bit_xor a (2 ^ n) + 2 ^ n ≡ a)
bit_xor-pow zero a = ground (arith, bit_xor_step a 1, bit_xor-zero (a / 2))
bit_xor-pow (suc n) a =
    let half : 2 ^ suc n / 2 ≡ 2 ^ n = omega (arith, pow-suc 2 n) in
    ground (arith, pow-suc 2 n, half, bit_xor_step a (2 ^ suc n), bit_xor-pow n (a / 2))
