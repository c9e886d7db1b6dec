-- ===== src/Syscalls/Format/Tests.antt =====
-- Two arguments, with a printf that writes one character and reports what it would have written.
use mirus.Base.{
  ℕ, ◌+◌, ◌<◌, ◌≤◌, ◌≡◌, ◌⊎◌, inl, inr, refl, arith, List, [], ◌∷◌, leb, ltb, ◌&&◌, if◌then◌else◌,
}
use mirus.Base.Format.{Arg}
use mirus.Libk.{Memory}
use mirus.Syscalls.Format.{format_syscall_args}
use mirus.Syscalls.Format.Bounds.{Prints, format_syscall_args_lem}
use Prim.Native.String.{String}

abbrev one_character : (dest size : ℕ) → String → List Arg → Memory → ℕ × Memory
one_character dest size format [] m =
    (2, λ a. if leb dest a && ltb a (dest + size) then 44 else m a)
one_character dest size format (a ∷ l) m =
    (9, λ a. if leb dest a && ltb a (dest + size) then 97 else m a)

one_character-Prints : Prints one_character
one_character-Prints = record {
  argument = λ dest size i v m small word. omega arith;
  comma = λ dest size m. omega arith;
  frame = one_character_frame;
}
  where
    one_character_frame :
        (dest size : ℕ) (f : String) (l : List Arg) (m : Memory) (x : ℕ)
        → (x < dest) ⊎ (dest + size ≤ x)
        → (one_character dest size f l m).1 x ≡ m x
    one_character_frame dest size f [] m x (inl below) = ground (arith, below)
    one_character_frame dest size f [] m x (inr above) = ground (arith, above)
    one_character_frame dest size f (a ∷ l) m x (inl below) = ground (arith, below)
    one_character_frame dest size f (a ∷ l) m x (inr above) = ground (arith, above)

twenty : (format_syscall_args one_character (λ i. 7) 2 64 (λ a. 1)).0 ≡ 20
unfolding format_syscall_args
twenty = refl

format_syscall_args_lem_example :
    ((format_syscall_args one_character (λ i. 7) 2 64 (λ a. 1)).0 ≤ 150)
    × ((x : ℕ)
        → (x < 64) ⊎ (320 ≤ x)
        → (format_syscall_args one_character (λ i. 7) 2 64 (λ a. 1)).1 x ≡ 1)
format_syscall_args_lem_example =
    format_syscall_args_lem one_character one_character-Prints (λ i. 7) 2 64 (λ i. omega arith)
      (λ a. 1)
