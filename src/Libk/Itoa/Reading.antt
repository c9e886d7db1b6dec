-- ===== src/Libk/Itoa/Reading.antt =====
-- `itoa` of libs/libk/src/string.c, read back.
use mirus.Base.{
  ℕ, zero, suc, ◌+◌, ◌-◌, ◌*◌, ◌^◌, ◌≤◌, ◌<◌, ◌≡◌, refl, ap, ◌∙◌, ◌⊎◌, arith, Bool, true, false,
  Option, some, ◌==◌, if◌then◌else◌, Bool-cases, inl, inr, update,
}
use native.Mathlib.Nat.{pow-zero, pow-suc}
use native.Mathlib.Numerals.{add-one}
use mathlib.Core.Path.{subst}
use mirus.Base.Int.{ℤ, pos, negsuc}
use mirus.Libk.{Memory}
use mirus.Libk.Strings.{IsString, reverse_lem}
use mirus.Libk.Itoa.{digits_loop, finish, itoa_negative, itoa}
use mirus.Libk.Itoa.Digits.{digit_value, value, Written, digits_loop-Written}

-- the number that `k` digits from `p` on stand for behind `acc`, the highest first
abbrev pub read : (base k p acc : ℕ) → Memory → ℕ
read base zero p acc m = acc
read base (suc k) p acc m = read base k (p + 1) (acc * base + digit_value (m p)) m

abbrev pub minus : ℕ → ℤ
minus zero = pos 0
minus (suc n) = negsuc n

-- A text of `k` characters as a number: a minus sign and digits, or digits.
abbrev pub parse : (base k str : ℕ) → Memory → ℤ
parse base k str m =
    if m str == b'-' then minus (read base (k - 1) (str + 1) 0 m) else pos (read base k str 0 m)

-- The digits of one place in the opposite order at another one.
read_reversed :
    (base k p acc str : ℕ) (m m' : Memory)
    → ((j : ℕ) → j < k → m' (p + j) ≡ m (str + (k - 1 - j)))
    → read base k p acc m' ≡ acc * base ^ k + value base k str m
read_reversed base zero p acc str m m' h = rw (pow-zero base) (omega arith)
read_reversed base (suc k) p acc str m m' h =
    let first : m' p ≡ m (str + k) = ground (arith, h 0) in
    let d = digit_value (m (str + k)) in
    let rest =
      read_reversed base k (p + 1) (acc * base + d) str m m' (λ j i. ground (arith, h (suc j))) in
    let spread : (acc * base + d) * base ^ k ≡ acc * (base ^ k * base) + d * base ^ k =
      grind arith in
    rw first (omega (arith, rest, spread, ap (λ t. acc * t) (pow-suc base k)))

-- A printed number: text of `count` characters, of which the first tells the sign, that stands for
-- the number; no byte outside of it and its terminator is changed.
record Printed (negative : Bool) (base n str : ℕ) (m : Memory) (r : Option Memory) : Type 0 where
  count : ℕ
  bounded : count ≤ n + 1
  memory : Memory
  returned : r ≡ some memory
  string : IsString memory str count
  sign : (memory str == b'-') ≡ negative
  number :
      (if negative then read base (count - 1) (str + 1) 0 memory else read base count str 0 memory)
      ≡ n
  outside : (x : ℕ) → (x < str) ⊎ (str + count < x) → memory x ≡ m x

module _ {base n str : ℕ} {m : Memory} {r : Option (ℕ × Memory)} (fuel : ℕ)
    (w : Written base n n 0 str m r) (positive : 0 < n) (enough : n + 1 < fuel) where
  some_digits : 0 < w.count
  some_digits = elim (Bool-cases (w.count == 0)) [
    | inl none_yet ↦
        let z : w.count ≡ 0 = ground arith in
        let e : value base 0 str w.memory ≡ n = rw z at w.worth in
        absurd (omega (arith, e, positive))
    | inr digits ↦ ground arith
  ]

  finish_plain : Printed false base n str m (finish fuel false str r)
  unfolding finish
  finish_plain =
      let m1 = update w.memory (str + w.count) 0 in
      let t : IsString m1 str w.count = record {
        body = λ j i. ground (arith, w.digits j);
        ends = ground arith;
      } in
      let done = reverse_lem fuel w.count str m1 t (omega (arith, w.bounded, enough)) in
      let m' = done.0 in
      let reversed : (j : ℕ) → j < w.count → m' (str + j) ≡ w.memory (str + (w.count - 1 - j)) =
        λ j i. ground (arith, done.2 (str + j)) in
      record {
        count = w.count;
        bounded = omega (arith, w.bounded);
        memory = m';
        returned = rw (finish, w.returned) (done.1);
        string = record {
          body = λ j i. ground (arith, reversed j i, w.digits (w.count - 1 - j));
          ends = ground (arith, done.2 (str + w.count));
        };
        sign = ground (arith, reversed 0 some_digits, w.digits (w.count - 1 - 0), some_digits);
        number = omega (arith, w.worth, read_reversed base w.count str 0 str w.memory m' reversed);
        outside = λ x i. ground (arith, done.2 x, w.outside x);
      }

  finish_minus : Printed true base n str m (finish fuel true str r)
  unfolding finish
  finish_minus =
      let c = w.count in
      let m1 = update (update w.memory (str + c) b'-') (str + (c + 1)) 0 in
      let t : IsString m1 str (c + 1) = record {
        body = λ j i. ground (arith, w.digits j);
        ends = ground arith;
      } in
      let done = reverse_lem fuel (c + 1) str m1 t (omega (arith, w.bounded, enough)) in
      let m' = done.0 in
      let reversed : (j : ℕ) → j < c → m' (str + 1 + j) ≡ w.memory (str + (c - 1 - j)) =
        λ j i. ground (arith, done.2 (str + 1 + j)) in
      record {
        count = c + 1;
        bounded = omega (arith, w.bounded);
        memory = m';
        returned = rw (finish, w.returned) (done.1);
        string = record {
          body = λ j i. ground (arith, done.2 (str + j), w.digits (c - j));
          ends = ground (arith, done.2 (str + (c + 1)));
        };
        sign = ground (arith, done.2 str);
        number =
            let less : c + 1 - 1 ≡ c = omega arith in
            rw less
              (omega (arith, w.worth, read_reversed base c (str + 1) 0 str w.memory m' reversed));
        outside = λ x i. ground (arith, done.2 x, w.outside x);
      }

-- The numbers that `itoa` prints as they are: in every base from 2 to 36 those from 0 up, and in
-- base 10 the negative ones whose negation is an `int` too.
abbrev pub Printable : ℤ → ℕ → Type 0
Printable (pos n) base = (2 ≤ base) × (base ≤ 36)
Printable (negsuc n) base = (base ≡ 10) × (n + 1 < 2 ^ 31)

abbrev pub magnitude : ℤ → ℕ
magnitude (pos n) = n
magnitude (negsuc n) = n + 1

digits-Written :
    (fuel n base str : ℕ) (m : Memory)
    → 2 ≤ base
    → base ≤ 36
    → n < fuel
    → Written base n n 0 str m (digits_loop fuel false n base 0 str m)
digits-Written fuel n base str m lo hi enough =
    let total : 0 + n * base ^ 0 ≡ n = rw (pow-zero base) (omega arith) in
    subst (λ t. Written base t n 0 str m (digits_loop fuel false n base 0 str m)) total
      (digits_loop-Written fuel n base 0 str m lo hi enough (λ j h. absurd (omega (arith, h))))

-- With fuel above the magnitude plus one, `itoa` of such a number returns: it leaves a string of at
-- most that many characters which reads back as the number, and no byte outside of it and its
-- terminator is changed.
pub parse-itoa :
    (fuel : ℕ) (num : ℤ) (str base : ℕ) (m : Memory)
    → Printable num base
    → magnitude num + 1 < fuel
    → (k : ℕ) × (m' : Memory) × (k ≤ magnitude num + 1)
      × (itoa fuel num str base m ≡ some m')
      × IsString m' str k
      × (parse base k str m' ≡ num)
      × ((x : ℕ) → (x < str) ⊎ (str + k < x) → m' x ≡ m x)
unfolding itoa itoa_negative
parse-itoa fuel (pos n) str base m (lo, hi) enough = elim (Bool-cases (n == 0)) [
  | inl zero_number ↦
      let m' = update (update m str b'0') (str + 1) 0 in
      (
        1,
        m',
        omega arith,
        rw (itoa, zero_number) refl,
        record { body = λ j h. ground arith; ends = ground arith },
        ground arith,
        λ x h. ground arith,
      )
  | inr positive ↦
      let w = digits-Written fuel n base str m lo hi (omega (arith, enough)) in
      let p = finish_plain fuel w (ground arith) enough in
      (
        p.count,
        p.memory,
        p.bounded,
        rw (itoa, positive) p.returned,
        p.string,
        ground (arith, p.sign, p.number),
        p.outside,
      )
]
parse-itoa fuel (negsuc n) str base m (ten, small) enough =
    let w =
      digits-Written fuel (n + 1) base str m (omega (arith, ten)) (omega (arith, ten))
        (omega (arith, enough)) in
    let p = finish_minus fuel w (omega arith) (omega (arith, enough)) in
    let bounded : p.count ≤ n + 1 + 1 = p.bounded in
    let decimal : (base == 10) ≡ true = ground arith in
    let not_lowest : (n == 2 ^ 31 - 1) ≡ false = ground arith in
    let number : minus (read base (p.count - 1) (str + 1) 0 p.memory) ≡ negsuc n =
      ap minus (p.number ∙ add-one n) in
    (
      p.count,
      p.memory,
      bounded,
      rw (itoa_negative, decimal, not_lowest) p.returned,
      p.string,
      rw p.sign number,
      p.outside,
    )
