-- ===== src/Libk/Tests.antt =====
-- The string functions at concrete memories.
use mirus.Base.{
  ℕ, Option, none, ◌≤◌, ◌<◌, ◌^◌, ◌+◌, ◌-◌, ◌%◌, ◌≡◌, ◌⊎◌, ◌&&◌, refl, arith, true, false, some,
  ltb, leb, if◌then◌else◌, inr, ◌==◌,
}
use mirus.Base.Int.{negsuc}
use mirus.Libk.{Memory, memcpy, memmove, memset, memcmp, strlen, reverse, check_string_ends_with}
use mirus.Libk.Copy.{copied, memmove_lem, memcpy_lem, memset_lem}
use mirus.Libk.Pow2.{round_to_nearest_pow2}
use mirus.Libk.Pow2.Least.{round_to_nearest_pow2_lem}
use mirus.Libk.Compare.{SameBytes, FirstDifference, memcmp_lem}
use mirus.Libk.Strings.{IsString, strlen_lem, reverse_lem}
use mirus.Libk.Itoa.{itoa}
use mirus.Libk.Itoa.Reading.{parse, parse-itoa}
use mirus.Libk.Suffix.{SameTail, Decides, check_string_ends_with_lem}

-- "abcd" at 100, "xcd" at 200 and "de" at 300
abbrev words : Memory
words a =
    if leb 100 a && ltb a 104
    then a - 100 + 97
    else if a == 200
    then 120
    else if leb 201 a && ltb a 203
    then a - 201 + 99
    else if leb 300 a && ltb a 302
    then a - 300 + 100
    else 0

words_at_100 : IsString words 100 4
words_at_100 = record { body = λ i h. ground arith; ends = refl }

words_at_200 : IsString words 200 3
words_at_200 = record { body = λ i h. ground arith; ends = refl }

-- "abcd" does not end with "xcd", but the first byte of the suffix is never compared.
wrong_suffix : check_string_ends_with 10 100 200 words ≡ some true
unfolding check_string_ends_with
wrong_suffix = refl

right_rejection : check_string_ends_with 10 100 300 words ≡ some false
unfolding check_string_ends_with
right_rejection = refl

smaller_first : memcmp 100 200 4 words ≡ negsuc 0
unfolding memcmp
smaller_first = refl

memmove_lem_example : memmove 101 100 3 words 102 ≡ 98
memmove_lem_example = memmove_lem 101 100 3 words 102

copied_away : memcpy 150 100 4 words 151 ≡ copied 150 100 4 words 151
copied_away = memcpy_lem 150 100 4 words 151 (inr (omega arith))

filled : memset 100 0x141 4 words 103 ≡ 0x41
filled = memset_lem 100 0x141 4 words 103

words_compared :
    SameBytes 0 4 100 200 words (memcmp 100 200 4 words)
    ⊎ FirstDifference 0 4 100 200 words (memcmp 100 200 4 words)
words_compared = memcmp_lem 100 200 4 words

four_characters : strlen 5 100 words ≡ some 4
four_characters = strlen_lem 5 4 100 words words_at_100 (omega arith)

reverse_text :
    (m' : Memory) × (reverse 5 100 words ≡ some m')
    × ((x : ℕ)
        → m' x
          ≡ (if leb 100 x && ltb x (100 + 4) then words (100 + (100 + 4 - 1 - x)) else words x))
reverse_text = reverse_lem 5 4 100 words words_at_100 (omega arith)

check_string_ends_with_lem_example :
    Decides (check_string_ends_with 10 100 200 words) (SameTail 3 2 100 200 words)
check_string_ends_with_lem_example =
    check_string_ends_with_lem 10 2 1 100 200 words words_at_100 words_at_200 (omega arith)
      (omega arith) (omega arith) (omega arith)

-- the text of the lowest `int`: its digits lie below '0', "-./,),(-*,("
abbrev lowest_text : Option Memory
unfolding itoa
lowest_text = itoa 20 (negsuc (2 ^ 31 - 1)) 400 10 words

abbrev byte_at : ℕ → Option Memory → ℕ
byte_at x none = 0
byte_at x (some m) = m x

lowest_garbled : (byte_at 401 lowest_text ≡ b'.') × (byte_at 410 lowest_text ≡ b'(')
unfolding itoa
lowest_garbled = (refl, refl)

-- minus thirty in base 16, whose sign is lost
negative_hex : byte_at 400 (itoa 40 (negsuc 29) 400 16 words) ≡ b'/'
unfolding itoa
negative_hex = refl

parse-itoa_example :
    (k : ℕ) × (m' : Memory) × (k ≤ 106)
    × (itoa 200 (negsuc 104) 400 10 words ≡ some m')
    × IsString m' 400 k
    × (parse 10 k 400 m' ≡ negsuc 104)
    × ((x : ℕ) → (x < 400) ⊎ (400 + k < x) → m' x ≡ words x)
parse-itoa_example = parse-itoa 200 (negsuc 104) 400 10 words (refl, omega arith) (omega arith)

five_rounded : round_to_nearest_pow2 5 ≡ 8
unfolding round_to_nearest_pow2
five_rounded = refl

large_rounded : round_to_nearest_pow2 (2 ^ 63 + 1) ≡ 0
unfolding round_to_nearest_pow2
large_rounded = refl

round_to_nearest_pow2_lem_example :
    (k : ℕ) × (k ≤ 64)
    × (1000 ≤ 2 ^ k)
    × ((j : ℕ) → 1000 ≤ 2 ^ j → k ≤ j)
    × (round_to_nearest_pow2 1000 ≡ 2 ^ k % 2 ^ 64)
round_to_nearest_pow2_lem_example = round_to_nearest_pow2_lem 1000 (omega arith)
