-- ===== src/Libk/Itoa/Digits.antt =====
-- The loop of `itoa` of libs/libk/src/string.c: the digits that it writes, lowest first.
use mirus.Base.{
  ℕ, zero, suc, ◌+◌, ◌-◌, ◌*◌, ◌/◌, ◌%◌, ◌^◌, ◌≤◌, ◌<◌, ◌≡◌, refl, sym, ap, ◌∙◌, ◌⊎◌, arith, false,
  Option, some, leb, ◌==◌, if◌then◌else◌, Bool-cases, inl, inr, update,
}
use native.Mathlib.Nat.{div-add-mod', pow-suc}
use mirus.Libk.{Memory}
use mirus.Libk.Itoa.{digit_char, digits_loop}

-- what a digit stands for
abbrev pub digit_value : ℕ → ℕ
digit_value c = if leb b'a' c then c - b'a' + 10 else c - b'0'

-- the value of `k` digits from `str` on, the lowest first
abbrev pub value : (base k str : ℕ) → Memory → ℕ
value base zero str m = 0
value base (suc k) str m = value base k str m + digit_value (m (str + k)) * base ^ k

pub value-frame :
    (base k str : ℕ) (m m' : Memory)
    → ((j : ℕ) → j < k → m' (str + j) ≡ m (str + j))
    → value base k str m' ≡ value base k str m
value-frame base zero str m m' h = refl
value-frame base (suc k) str m m' h =
    rw (h k (omega arith), value-frame base k str m m' (λ j i. h j (omega arith)))

digit_value-digit_char : (r : ℕ) → r < 36 → digit_value (digit_char false r) ≡ r
unfolding digit_char
digit_value-digit_char r h = ground arith

digit_char_above : (r : ℕ) → r < 36 → b'-' < digit_char false r
unfolding digit_char
digit_char_above r h = ground arith

-- The state after the loop: `count` digits that stand for `total`, none of them below '0', and no
-- other byte changed; no more digits than the number `num` that was left.
pub record Written (base total num from str : ℕ) (m : Memory) (r : Option (ℕ × Memory))
    : Type 0 where
  pub count : ℕ
  pub memory : Memory
  pub returned : r ≡ some (count, memory)
  pub grown : from ≤ count
  pub bounded : count ≤ from + num
  pub worth : value base count str memory ≡ total
  pub digits : (j : ℕ) → j < count → b'-' < memory (str + j)
  pub outside : (x : ℕ) → (x < str) ⊎ (str + count ≤ x) → memory x ≡ m x

quotient_less : (q b r n : ℕ) → 2 ≤ b → 0 < n → q * b + r ≡ n → q < n
quotient_less q b r n two positive e =
    let split : b ≡ b - 2 + 2 = omega arith in
    let product : q * (b - 2 + 2) ≡ q * (b - 2) + q + q = grind arith in
    let product' : q * b ≡ q * (b - 2) + q + q = ap (λ t. q * t) split ∙ product in
    omega (arith, product', e)

digit_kept :
    (i str : ℕ) (m : Memory) (c : ℕ)
    → b'-' < c
    → ((j : ℕ) → j < i → b'-' < m (str + j))
    → (j : ℕ) → j < suc i
    → b'-' < update m (str + i) c (str + j)
digit_kept i str m c positive d j h = elim (Bool-cases (j == i)) [
  | inl same ↦ ground arith
  | inr other ↦ ground (arith, d j)
]

-- One round moves the last digit of what is left to the digits that are written.
advance : (v q r b p p' n : ℕ) → q * b + r ≡ n → p' ≡ p * b → v + r * p + q * p' ≡ v + n * p
advance v q r b p p' n e e' =
    let product : r * p + q * (p * b) ≡ (q * b + r) * p = grind arith in
    rw (e', sym e) (omega (arith, product))

pub digits_loop-Written :
    (fuel num base i str : ℕ) (m : Memory)
    → 2 ≤ base
    → base ≤ 36
    → num < fuel
    → ((j : ℕ) → j < i → b'-' < m (str + j))
    → Written base
        (value base i str m + num * base ^ i)
        num
        i
        str
        m
        (digits_loop fuel false num base i str m)
unfolding digits_loop
digits_loop-Written zero num base i str m lo hi e d = absurd (omega (arith, e))
digits_loop-Written (suc fuel) num base i str m lo hi e d = elim (Bool-cases (num == 0)) [
  | inl done ↦
      let none_left : num * base ^ i ≡ 0 = let z : num ≡ 0 = ground arith in rw z (omega arith) in
      record {
        count = i;
        memory = m;
        returned = rw done refl;
        grown = omega arith;
        bounded = omega arith;
        worth = omega (arith, none_left);
        digits = d;
        outside = λ x h. refl;
      }
  | inr more ↦
      let c = digit_char false (num % base) in
      let m' = update m (str + i) c in
      let small : num % base < 36 = grind arith in
      let smaller : num / base < num =
        quotient_less (num / base) base (num % base) num lo (ground arith)
          (div-add-mod' num base) in
      let less : num / base < fuel = omega (arith, e, smaller) in
      let here : m' (str + i) ≡ c = ground arith in
      let below : (j : ℕ) → j < i → m' (str + j) ≡ m (str + j) = λ j h. ground arith in
      let r =
        digits_loop-Written fuel (num / base) base (suc i) str m' lo hi less
          (λ j h. digit_kept i str m c (digit_char_above (num % base) small) d j h) in
      let first : value base (suc i) str m' ≡ value base i str m + num % base * base ^ i =
        rw (here, value-frame base i str m m' below, digit_value-digit_char (num % base) small)
          refl in
      let next : i + 1 ≡ suc i = omega arith in
      record {
        count = r.count;
        memory = r.memory;
        returned = rw (more, next) r.returned;
        grown = omega (arith, r.grown);
        bounded = omega (arith, r.bounded, smaller);
        worth =
            r.worth
            ∙ ap (λ t. t + num / base * base ^ suc i) first
            ∙ advance (value base i str m) (num / base) (num % base) base (base ^ i) (base ^ suc i)
                num (div-add-mod' num base) (pow-suc base i);
        digits = r.digits;
        outside = λ x h. ground (arith, r.outside x h, r.grown);
      }
]
