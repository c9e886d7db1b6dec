-- ===== src/Libk.antt =====
-- libs/libk/src/string.c over a memory that gives the byte at each address. Objects do not reach
-- round the end of the address space, so pointer arithmetic does not wrap. A loop over a string
-- takes fuel, since C strings end at a zero byte that may be missing; `none` is the end of fuel.
pub mod Copy
pub mod Compare
pub mod Pow2
pub mod Strings
pub mod Suffix
pub mod Itoa
mod Tests
use mirus.Base.{
  ℕ, zero, suc, ◌+◌, ◌-◌, ◌/◌, ◌%◌, Bool, true, false, ◌||◌, ◌&&◌, ◌^◌, Option, none, some, ltb,
  ◌==◌, if◌then◌else◌, update,
}
use mirus.Base.Int.{ℤ, pos, negsuc}

abbrev pub Memory : Type 0
Memory = ℕ → ℕ

-- `for (i; i < n; i++) pdest[i] = psrc[i];` with `rounds` for `n - i`
pub copy_up : (rounds i dest src : ℕ) → Memory → Memory
copy_up zero i dest src m = m
copy_up (suc rounds) i dest src m =
    copy_up rounds (i + 1) dest src (update m (dest + i) (m (src + i)))

-- `for (i; i > 0; i--) pdest[i - 1] = psrc[i - 1];`
pub copy_down : (i dest src : ℕ) → Memory → Memory
copy_down zero dest src m = m
copy_down (suc i) dest src m = copy_down i dest src (update m (dest + i) (m (src + i)))

-- The memory that each function leaves; they return their first argument.
pub memcpy : (dest src n : ℕ) → Memory → Memory
unfolding copy_up
memcpy dest src n m = copy_up n 0 dest src m

pub memmove : (dest src n : ℕ) → Memory → Memory
unfolding copy_up copy_down
memmove dest src n m =
    if ltb dest src
    then copy_up n 0 dest src m
    else if ltb src dest
    then copy_down n dest src m
    else m

-- the loop of `memset`; `(uint8_t)c` is the low byte
fill_up : (rounds i s byte : ℕ) → Memory → Memory
fill_up zero i s byte m = m
fill_up (suc rounds) i s byte m = fill_up rounds (i + 1) s byte (update m (s + i) byte)

-- `c` is the bit pattern of the `int`
pub memset : (s c n : ℕ) → Memory → Memory
unfolding fill_up
memset s c n m = fill_up n 0 s (c % 256) m

-- the loop of `memcmp`
memcmp_from : (rounds i s1 s2 : ℕ) → Memory → ℤ
memcmp_from zero i s1 s2 m = pos 0
memcmp_from (suc rounds) i s1 s2 m =
    let rest = memcmp_from rounds (i + 1) s1 s2 m in
    if m (s1 + i) == m (s2 + i)
    then rest
    else if ltb (m (s1 + i)) (m (s2 + i))
    then negsuc 0
    else pos 1

pub memcmp : (s1 s2 n : ℕ) → Memory → ℤ
unfolding memcmp_from
memcmp s1 s2 n m = memcmp_from n 0 s1 s2 m

-- `while (*str++) ret++;`
strlen_from : (fuel str ret : ℕ) → Memory → Option ℕ
strlen_from zero str ret m = none
strlen_from (suc fuel) str ret m =
    let rest = strlen_from fuel (str + 1) (ret + 1) m in if m str == 0 then some ret else rest

pub strlen : (fuel str : ℕ) → Memory → Option ℕ
unfolding strlen_from
strlen fuel str m = strlen_from fuel str 0 m

-- the second loop of `reverse`, with the rounds left of `length / 2`; `end--` comes last, so the
-- pointer may step to the byte before the string
reverse_loop : (rounds begin end : ℕ) → Memory → Memory
reverse_loop zero begin end m = m
reverse_loop (suc rounds) begin end m =
    let temp = m end in
    reverse_loop rounds (begin + 1) (end - 1) (update (update m end (m begin)) begin temp)

-- `length` is an `int`; the first loop takes `end` forward by `length - 1`, if that is positive.
pub reverse : (fuel str : ℕ) → Memory → Option Memory
unfolding strlen reverse_loop
reverse fuel str m = elim (strlen fuel str m) [
  | none ↦ none
  | some length ↦ some (reverse_loop (length / 2) str (str + (length - 1)) m)
]

-- `while (*p != 0) p++;`
skip_to_end : (fuel p : ℕ) → Memory → Option ℕ
skip_to_end zero p m = none
skip_to_end (suc fuel) p m =
    let rest = skip_to_end fuel (p + 1) m in if m p == 0 then some p else rest

-- `p--` of a pointer, which wraps below address 0
abbrev pub dec : ℕ → ℕ
dec p = (p + 2 ^ 64 - 1) % 2 ^ 64

-- the `while (true)` loop of `checkStringEndsWith`; `str` and `end` move, the strings start at
-- `str0` and `end0`
suffix_loop : (fuel str end str0 end0 : ℕ) → Memory → Option Bool
suffix_loop zero str end str0 end0 m = none
suffix_loop (suc fuel) str end str0 end0 m =
    let str' = dec str in
    let end' = dec end in
    let rest = suffix_loop fuel str' end' str0 end0 m in
    if m str == m end
    then if end' == end0 || (str' == str0 && end' == end0)
      then some true
      else if str' == str0
      then some false
      else rest
    else some false

unfoldable pub check_string_ends_with : (fuel str end : ℕ) → Memory → Option Bool
unfolding skip_to_end suffix_loop
check_string_ends_with fuel str end m = elim (skip_to_end fuel str m) [
  | none ↦ none
  | some p ↦ elim (skip_to_end fuel end m) [
    | none ↦ none
    | some q ↦ suffix_loop fuel (dec p) (dec q) str end m
  ]
]
