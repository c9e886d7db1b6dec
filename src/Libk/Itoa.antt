-- ===== src/Libk/Itoa.antt =====
-- `itoa` of libs/libk/src/string.c. An `int` is an integer from -2 ^ 31 up to 2 ^ 31 - 1; its
-- negation wraps at the lowest one, as the machine computes it. Division and remainder round
-- towards zero, so a loop on a negative number has its magnitude and writes digits below '0'.
pub mod Digits
pub mod Reading
use mirus.Base.{
  ℕ, zero, suc, ◌+◌, ◌-◌, ◌/◌, ◌%◌, ◌^◌, Bool, true, false, ◌&&◌, Option, none, some, ltb, ◌==◌,
  if◌then◌else◌, update,
}
use mirus.Base.Int.{ℤ, pos, negsuc}
use mirus.Libk.{Memory, reverse}

-- the character of a remainder of this magnitude
pub digit_char : (negative : Bool) → ℕ → ℕ
digit_char false rem = if ltb 9 rem then (rem - 10 + b'a') % 256 else rem + b'0'
digit_char true rem = (b'0' + 256 - rem % 256) % 256

-- `while (num != 0)`: the count of digits and the memory that the loop leaves
pub digits_loop : (fuel : ℕ) (negative : Bool) (num base i str : ℕ) → Memory → Option (ℕ × Memory)
unfolding digit_char
digits_loop zero negative num base i str m = none
digits_loop (suc fuel) negative num base i str m =
    let rest =
      digits_loop fuel negative (num / base) base (i + 1) str
        (update m (str + i) (digit_char negative (num % base))) in
    if num == 0 then some (i, m) else rest

-- what follows the loop: the sign, the terminator, and the reversal
pub finish : (fuel : ℕ) (is_negative : Bool) (str : ℕ) → Option (ℕ × Memory) → Option Memory
unfolding reverse
finish fuel is_negative str none = none
finish fuel false str (some (i, m)) = reverse fuel str (update m (str + i) 0)
finish fuel true str (some (i, m)) =
    reverse fuel str (update (update m (str + i) b'-') (str + (i + 1)) 0)

-- `num = -num` of a negative number, which the lowest number survives
pub itoa_negative : (fuel n str base : ℕ) → Memory → Option Memory
unfolding digits_loop finish
itoa_negative fuel n str base m =
    if base == 10
    then if n == 2 ^ 31 - 1
      then finish fuel true str (digits_loop fuel true (n + 1) base 0 str m)
      else finish fuel true str (digits_loop fuel false (n + 1) base 0 str m)
    else finish fuel false str (digits_loop fuel true (n + 1) base 0 str m)

-- The memory after `itoa`, which returns `str`.
unfoldable pub itoa : (fuel : ℕ) (num : ℤ) (str base : ℕ) → Memory → Option Memory
unfolding digits_loop finish itoa_negative
itoa fuel (pos n) str base m =
    if n == 0
    then some (update (update m str b'0') (str + 1) 0)
    else finish fuel false str (digits_loop fuel false n base 0 str m)
itoa fuel (negsuc n) str base m = itoa_negative fuel n str base m
