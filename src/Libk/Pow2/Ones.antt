-- ===== src/Libk/Pow2/Ones.antt =====
-- How `round_to_nearest_pow2` of libs/libk/include/libk/math.h fills a word with ones, and the power
-- that it ends at.
use mirus.Base.{
  ℕ, zero, suc, ◌+◌, ◌-◌, ◌*◌, ◌/◌, ◌^◌, ◌≤◌, ◌<◌, ◌≡◌, sym, ap, ◌∙◌, arith, ◌⊎◌, inl, inr,
}
use native.Mathlib.Nat.{
  pow-suc, mul_assoc, le-div_iff_mul-le, div-lt_iff_lt-mul, one-le-pow, pow-le-pow_right, add-mul,
  mul_comm, one-mul, div-le_self,
}
use Prim.Native.Nat.{bit_or}
use mirus.Base.Or.{bit_or_above, bit_or_below, bit_or_apart}
use mirus.Libk.Pow2.{fill}

-- The first `j` bits of a number of `width` bits are ones.
abbrev pub Ones : (width j x : ℕ) → Type 0
Ones width j x = (x < 2 ^ width) × (2 ^ width ≤ x + 2 ^ (width - j))

pow-add : (a b : ℕ) → 2 ^ (a + b) ≡ 2 ^ a * 2 ^ b
pow-add a zero = let e : a + 0 ≡ a = omega arith in rw e (omega arith)
pow-add a (suc b) =
    let e : a + suc b ≡ suc (a + b) = omega arith in
    ap (λ n. 2 ^ n) e
    ∙ pow-suc 2 (a + b)
    ∙ ap (λ p. p * 2) (pow-add a b)
    ∙ mul_assoc (2 ^ a) (2 ^ b) 2
    ∙ ap (λ p. 2 ^ a * p) (sym (pow-suc 2 b))

pow-pos : (a : ℕ) → 0 < 2 ^ a
pow-pos a = one-le-pow a 2 (omega arith)

pub either : (a b : ℕ) → (a ≤ b) ⊎ (b < a)
either a b = ground arith

-- One step doubles the number of ones: the bits behind them are those of the number moved down.
fill-Ones_within : (width j x : ℕ) → j ≤ width → Ones width j x → Ones width (j + j) (fill j x)
unfolding fill
fill-Ones_within width j x le (below, ones) =
    let t = width - j in
    let u = width - (j + j) in
    let q = 2 ^ j - 1 in
    let d = 2 ^ t - 2 ^ u in
    let b = x / 2 ^ j in
    let sum : t + j ≡ width = omega arith in
    let whole : 2 ^ width ≡ 2 ^ t * 2 ^ j = ap (λ n. 2 ^ n) (sym sum) ∙ pow-add t j in
    let less : 2 ^ u ≤ 2 ^ t = pow-le-pow_right (omega arith) (omega arith) in
    let more : 2 ^ t ≤ 2 ^ u * 2 ^ j =
      rw (pow-add u j) at
        (pow-le-pow_right {n = 2} (omega arith) {i = t} {j = u + j} (omega arith)) in
    let q_def : 1 + q ≡ 2 ^ j = omega (arith, pow-pos j) in
    let d_def : d + 2 ^ u ≡ 2 ^ t = omega (arith, less) in
    let by_q : 2 ^ width ≡ 2 ^ t + q * 2 ^ t =
      whole
      ∙ mul_comm (2 ^ t) (2 ^ j)
      ∙ ap (λ p. p * 2 ^ t) (sym q_def)
      ∙ add-mul 1 q (2 ^ t)
      ∙ ap (λ p. p + q * 2 ^ t) (one-mul (2 ^ t)) in
    let by_d : d * 2 ^ j + 2 ^ u * 2 ^ j ≡ 2 ^ width =
      sym (add-mul d (2 ^ u) (2 ^ j)) ∙ ap (λ p. p * 2 ^ j) d_def ∙ sym whole in
    let b_below : b < 2 ^ t = (div-lt_iff_lt-mul (pow-pos j)).1 (omega (arith, whole, below)) in
    let b_above : d ≤ b = (le-div_iff_mul-le (pow-pos j)).1 (omega (arith, by_d, more, ones)) in
    let rest = x - q * 2 ^ t in
    let rest_below : rest < 2 ^ t = omega (arith, by_q, below, ones, pow-pos t) in
    let split : x ≡ q * 2 ^ t + rest = omega (arith, by_q, below, ones) in
    let joined : bit_or x b ≡ q * 2 ^ t + bit_or rest b =
      ap (λ y. bit_or y b) split ∙ bit_or_apart t q rest b rest_below b_below in
    let small = bit_or_below t rest b rest_below b_below in
    let large = bit_or_above t rest b rest_below b_below in
    (omega (arith, joined, small, by_q), omega (arith, joined, large, b_above, d_def, by_q))

pub fill-Ones : (width j x : ℕ) → Ones width j x → Ones width (j + j) (fill j x)
unfolding fill
fill-Ones width j x (below, ones) = elim (either j width) [
  | inl le ↦ fill-Ones_within width j x le (below, ones)
  | inr gt ↦
      let all : width - j ≡ 0 = omega arith in
      let all' : width - (j + j) ≡ 0 = omega arith in
      let full : 2 ^ width ≤ x + 1 = rw all at ones in
      let moved = div-le_self x (2 ^ j) in
      let small = bit_or_below width x (x / 2 ^ j) below (omega (arith, below, moved)) in
      let large = bit_or_above width x (x / 2 ^ j) below (omega (arith, below, moved)) in
      (small, rw all' (omega (arith, full, large)))
]

-- Every number above zero has a first bit.
pub first_bit :
    (width m : ℕ) → 0 < m → m < 2 ^ width → (k : ℕ) × (k < width) × (2 ^ k ≤ m) × (m < 2 ^ suc k)
first_bit zero m low h = absurd (omega arith)
first_bit (suc width) m low h = elim (either (2 ^ width) m) [
  | inl first ↦ (width, omega arith, first, h)
  | inr lower ↦
      let (k, within, above, below) = first_bit width m low lower in (k, omega arith, above, below)
]
