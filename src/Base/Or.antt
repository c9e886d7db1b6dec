-- ===== src/Base/Or.antt =====
-- What the bitwise or of a number and a multiple of a power above it is.
use Prim.Native.Nat.{
  ℕ, zero, suc, ◌+◌, ◌*◌, ◌/◌, ◌%◌, ◌^◌, ◌≤◌, ◌<◌, max, bit_or, digits, bit_or-bitwise,
}
use mathlib.Core.Path.{◌≡◌, refl, sym, ap, ◌∙◌}
use native.Mathlib.Nat.{pow-suc, mul_assoc}
use native.Mathlib.Omega.{arith}

abbrev or_digits : ℕ → ℕ → ℕ → ℕ
or_digits n a b = digits (λ d. d) max n a b

or_digits_count : (n m a b : ℕ) → a ≤ n → a ≤ m → or_digits n a b ≡ or_digits m a b
or_digits_count zero zero a b p q = refl
or_digits_count zero (suc m) zero b p q = refl
or_digits_count zero (suc m) (suc a) b p q = absurd (omega arith)
or_digits_count (suc n) zero zero b p q = refl
or_digits_count (suc n) zero (suc a) b p q = absurd (omega arith)
or_digits_count (suc n) (suc m) zero b p q = refl
or_digits_count (suc n) (suc m) (suc a) b p q =
    omega (arith, or_digits_count n m (suc a / 2) (b / 2) (omega arith) (omega arith))

zero-bit_or : (b : ℕ) → bit_or 0 b ≡ b
zero-bit_or b = bit_or-bitwise 0 b

-- Or, lowest digit first.
bit_or_step : (a b : ℕ) → bit_or a b ≡ bit_or (a / 2) (b / 2) * 2 + max (a % 2) (b % 2)
bit_or_step zero b = omega (arith, zero-bit_or b, zero-bit_or (b / 2))
bit_or_step (suc a) b = omega (
  arith,
  bit_or-bitwise (suc a) b,
  bit_or-bitwise (suc a / 2) (b / 2),
  or_digits_count a (suc a / 2) (suc a / 2) (b / 2) (omega arith) (omega arith),
)

-- Nothing carries between a number below 16 and a multiple of 16.
pub bit_or_nibbles : (a b : ℕ) → a < 16 → bit_or a (b * 16) ≡ a + b * 16
bit_or_nibbles a b h =
    let gone : a / 2 / 2 / 2 / 2 ≡ 0 = omega arith in
    let kept : b * 16 / 2 / 2 / 2 / 2 ≡ b = omega arith in
    let last : bit_or (a / 2 / 2 / 2 / 2) (b * 16 / 2 / 2 / 2 / 2) ≡ b =
      rw (gone, kept) (zero-bit_or b) in
    omega (
      arith,
      last,
      bit_or_step a (b * 16),
      bit_or_step (a / 2) (b * 16 / 2),
      bit_or_step (a / 2 / 2) (b * 16 / 2 / 2),
      bit_or_step (a / 2 / 2 / 2) (b * 16 / 2 / 2 / 2),
    )

bit_or-zero_below : (n a : ℕ) → a ≤ n → bit_or a 0 ≡ a
bit_or-zero_below n zero h = zero-bit_or 0
bit_or-zero_below zero (suc a) h = absurd (omega arith)
bit_or-zero_below (suc n) (suc a) h =
    omega (arith, bit_or_step (suc a) 0, bit_or-zero_below n (suc a / 2) (omega arith))

pub bit_or-zero : (a : ℕ) → bit_or a 0 ≡ a
bit_or-zero a = bit_or-zero_below a a (omega arith)

-- Each number is at most the or of both.
pub bit_or_above : (t a b : ℕ) → a < 2 ^ t → b < 2 ^ t → (a ≤ bit_or a b) × (b ≤ bit_or a b)
bit_or_above zero a b h k = (omega arith, omega arith)
bit_or_above (suc t) a b h k =
    let rest =
      bit_or_above t (a / 2) (b / 2) (omega (arith, pow-suc 2 t)) (omega (arith, pow-suc 2 t)) in
    (omega (arith, bit_or_step a b, rest.0), omega (arith, bit_or_step a b, rest.1))

-- The or of numbers of t bits has t bits.
pub bit_or_below : (t a b : ℕ) → a < 2 ^ t → b < 2 ^ t → bit_or a b < 2 ^ t
bit_or_below zero a b h k =
    let left : a ≡ 0 = omega arith in
    let right : b ≡ 0 = omega arith in rw (left, right) (omega (arith, zero-bit_or 0))
bit_or_below (suc t) a b h k =
    let rest =
      bit_or_below t (a / 2) (b / 2) (omega (arith, pow-suc 2 t)) (omega (arith, pow-suc 2 t)) in
    omega (arith, pow-suc 2 t, bit_or_step a b, rest)

-- Nothing carries between numbers of t bits and a multiple of 2 ^ t.
pub bit_or_apart :
    (t q a b : ℕ) → a < 2 ^ t → b < 2 ^ t → bit_or (q * 2 ^ t + a) b ≡ q * 2 ^ t + bit_or a b
bit_or_apart zero q a b h k =
    let left : a ≡ 0 = omega arith in
    let right : b ≡ 0 = omega arith in
    rw (left, right) (omega (arith, bit_or-zero (q * 2 ^ 0 + 0), bit_or-zero 0))
bit_or_apart (suc t) q a b h k =
    let double : q * 2 ^ suc t ≡ q * 2 ^ t * 2 =
      ap (λ p. q * p) (pow-suc 2 t) ∙ sym (mul_assoc q (2 ^ t) 2) in
    let half : (q * 2 ^ t * 2 + a) / 2 ≡ q * 2 ^ t + a / 2 = omega arith in
    let rest =
      bit_or_apart t q (a / 2) (b / 2) (omega (arith, pow-suc 2 t)) (omega (arith, pow-suc 2 t)) in
    let step = rw half at (bit_or_step (q * 2 ^ t * 2 + a) b) in
    rw double (omega (arith, step, rest, bit_or_step a b))
