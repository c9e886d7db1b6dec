-- ===== src/Libk/Pow2/Least.antt =====
-- What `round_to_nearest_pow2` of libs/libk/include/libk/math.h gives.
use mirus.Base.{
  ℕ, zero, suc, ◌+◌, ◌-◌, ◌%◌, ◌^◌, ◌≤◌, ◌<◌, ◌≡◌, refl, ap, false, ◌==◌, arith, inl, inr,
}
use native.Mathlib.Nat.{pow-suc, pow-le-pow_right}
use mirus.Libk.Pow2.{fill, round_to_nearest_pow2}
use mirus.Libk.Pow2.Ones.{Ones, either, fill-Ones, first_bit}

-- All six steps leave ones in every bit from the first on.
filled :
    (width m : ℕ)
    → width ≤ 64
    → Ones width 1 m
    → fill 32 (fill 16 (fill 8 (fill 4 (fill 2 (fill 1 m))))) + 1 ≡ 2 ^ width
filled width m le h =
    let h1 = fill-Ones width 1 m h in
    let h2 = fill-Ones width 2 _ h1 in
    let h3 = fill-Ones width 4 _ h2 in
    let h4 = fill-Ones width 8 _ h3 in
    let h5 = fill-Ones width 16 _ h4 in
    let (below, ones) = fill-Ones width 32 _ h5 in
    let all : width - 64 ≡ 0 = omega arith in
    let full = rw all at ones in omega (arith, below, full)

above_one :
    (n : ℕ)
    → 1 < n
    → n < 2 ^ 64
    → (k : ℕ) × (k ≤ 64)
      × (n ≤ 2 ^ k)
      × ((j : ℕ) → n ≤ 2 ^ j → k ≤ j)
      × (round_to_nearest_pow2 n ≡ 2 ^ k % 2 ^ 64)
unfolding round_to_nearest_pow2
above_one n low h =
    let (k, within, above, below) = first_bit 64 (n - 1) (omega arith) (omega arith) in
    let same : 2 ^ (suc k - 1) ≡ 2 ^ k = ap (λ i. 2 ^ i) (omega arith) in
    let ones : Ones (suc k) 1 (n - 1) = (below, omega (arith, above, pow-suc 2 k, same)) in
    let some_bit : (n == 0) ≡ false = ground (arith, low) in
    (
      suc k,
      omega arith,
      omega (arith, below),
      λ j i. elim (either (suc k) j) [
        | inl le ↦ le
        | inr gt ↦
            let small : 2 ^ j ≤ 2 ^ k = pow-le-pow_right (omega arith) (omega arith) in
            absurd (omega (arith, small, i, above))
      ],
      rw some_bit (ap (λ x. x % 2 ^ 64) (filled (suc k) (n - 1) (omega arith) ones)),
    )

-- For every 64-bit word the result is the least power of two that is not below it, taken modulo
-- 2 ^ 64: so it is 0 above 2 ^ 63.
pub round_to_nearest_pow2_lem :
    (n : ℕ)
    → n < 2 ^ 64
    → (k : ℕ) × (k ≤ 64)
      × (n ≤ 2 ^ k)
      × ((j : ℕ) → n ≤ 2 ^ j → k ≤ j)
      × (round_to_nearest_pow2 n ≡ 2 ^ k % 2 ^ 64)
unfolding round_to_nearest_pow2 fill
round_to_nearest_pow2_lem zero h = (0, omega arith, omega arith, λ j i. omega arith, refl)
round_to_nearest_pow2_lem (suc zero) h = (0, omega arith, omega arith, λ j i. omega arith, refl)
round_to_nearest_pow2_lem (suc (suc m)) h = above_one (suc (suc m)) (omega arith) h
