-- ===== src/Syscalls/Format/Bounds.antt =====
-- The text of the arguments of a system call in kernel/core/syscalls.c stays in its buffer.
use mirus.Base.{
  ℕ, zero, suc, ◌+◌, ◌*◌, ◌^◌, ◌≤◌, ◌<◌, ◌≡◌, ◌⊎◌, inl, inr, refl, ◌∙◌, arith, ◌&&◌, List, [], ◌∷◌,
  ltb, Bool-cases,
}
use mirus.Base.Format.{Arg, number}
use mirus.Libk.{Memory, memset}
use mirus.Libk.Copy.{memset_lem}
use mirus.Syscalls.{SystemCallArgs}
use mirus.Syscalls.Format.{arg_str_size, room, format_arg, format_args, format_syscall_args}
use Prim.Native.String.{String}

-- What the printf library promises: the lengths of the two texts, and that it writes to its buffer
-- only.
pub record Prints (snprintf_ : (dest size : ℕ) → String → List Arg → Memory → ℕ × Memory)
    : Type 0 where
  pub argument :
      (dest size i v : ℕ) (m : Memory)
      → i < 10
      → v < 2 ^ 64
      → (snprintf_ dest size "arg%d=0x%llx" (number i ∷ number v ∷ []) m).0 ≤ 23
  pub comma : (dest size : ℕ) (m : Memory) → (snprintf_ dest size ", " [] m).0 ≤ 2
  pub frame :
      (dest size : ℕ) (f : String) (l : List Arg) (m : Memory) (x : ℕ)
      → (x < dest) ⊎ (dest + size ≤ x)
      → (snprintf_ dest size f l m).1 x ≡ m x

module _ (str : ℕ) where
  -- the part of the buffer from an offset on lies in the buffer
  outside :
      (offset x : ℕ)
      → offset ≤ arg_str_size
      → (x < str) ⊎ (str + arg_str_size ≤ x)
      → (x < str + offset) ⊎ (str + offset + room offset ≤ x)
  outside offset x le (inl below) = inl (omega (arith, below))
  outside offset x le (inr above) = inr (omega (arith, above, le))

module _ (snprintf_ : (dest size : ℕ) → String → List Arg → Memory → ℕ × Memory)
    (prints : Prints snprintf_) (args : SystemCallArgs) (num_args str : ℕ)
    (words : (i : ℕ) → args i < 2 ^ 64) where
  -- one argument at an offset that leaves room for it
  format_arg_lem :
      (i offset : ℕ) (m : Memory)
      → i < 6
      → offset ≤ 25 * i
      → ((format_arg snprintf_ args num_args str i offset m).0 ≤ offset + 25)
        × ((x : ℕ)
            → (x < str) ⊎ (str + arg_str_size ≤ x)
            → (format_arg snprintf_ args num_args str i offset m).1 x ≡ m x)
  unfolding format_arg
  format_arg_lem i offset m six le =
      let l = number (i + 1) ∷ number (args i) ∷ [] in
      let first = snprintf_ (str + offset) (room offset) "arg%d=0x%llx" l m in
      let n = first.0 in
      let short : n ≤ 23 =
        prints.argument (str + offset) (room offset) (i + 1) (args i) m (omega (arith, six))
          (words i) in
      let second = snprintf_ (str + (offset + n)) (room (offset + n)) ", " [] first.1 in
      let comma : second.0 ≤ 2 = prints.comma (str + (offset + n)) (room (offset + n)) first.1 in
      let kept1 : (x : ℕ) → (x < str) ⊎ (str + arg_str_size ≤ x) → first.1 x ≡ m x = λ x out.
        prints.frame (str + offset) (room offset) "arg%d=0x%llx" l m x
          (outside str offset x (omega (arith, le, six)) out) in
      let kept2 : (x : ℕ) → (x < str) ⊎ (str + arg_str_size ≤ x) → second.1 x ≡ m x = λ x out.
        prints.frame (str + (offset + n)) (room (offset + n)) ", " [] first.1 x
          (outside str (offset + n) x (omega (arith, le, six, short)) out)
        ∙ kept1 x out in
      elim (Bool-cases (ltb (i + 1) num_args && ltb i 5)) [
        | inl more ↦ rw more (omega (arith, short, comma), kept2)
        | inr last ↦ rw last (omega (arith, short), kept1)
      ]

  format_args_lem :
      (rounds i offset : ℕ) (m : Memory)
      → i + rounds ≡ 6
      → offset ≤ 25 * i
      → ((format_args snprintf_ args num_args str rounds i offset m).0 ≤ 150)
        × ((x : ℕ)
            → (x < str) ⊎ (str + arg_str_size ≤ x)
            → (format_args snprintf_ args num_args str rounds i offset m).1 x ≡ m x)
  unfolding format_args
  format_args_lem zero i offset m e le = (omega (arith, e, le), λ x out. refl)
  format_args_lem (suc rounds) i offset m e le =
      let next = format_arg snprintf_ args num_args str i offset m in
      let (grown, kept) = format_arg_lem i offset m (omega (arith, e)) le in
      let (small, rest) =
        format_args_lem rounds (i + 1) next.0 next.1 (omega (arith, e))
          (omega (arith, grown, le)) in
      elim (Bool-cases (ltb i num_args)) [
        | inl more ↦ rw more (small, λ x out. rest x out ∙ kept x out)
        | inr done ↦ rw done (omega (arith, e, le), λ x out. refl)
      ]

  -- For arguments that are 64-bit words and a printf library that keeps its promises,
  -- `format_syscall_args` ends at an offset of at most 150 whatever the number of arguments,
  -- and changes no byte outside of the buffer of 256.
  pub format_syscall_args_lem :
      (m : Memory)
      → ((format_syscall_args snprintf_ args num_args str m).0 ≤ 150)
        × ((x : ℕ)
            → (x < str) ⊎ (str + arg_str_size ≤ x)
            → (format_syscall_args snprintf_ args num_args str m).1 x ≡ m x)
  unfolding format_syscall_args
  format_syscall_args_lem m =
      let (small, kept) = format_args_lem 6 0 0 (memset str 0 arg_str_size m) refl (omega arith) in
      (small, λ x out. kept x out ∙ cleared x out)
    where
      cleared : (x : ℕ) → (x < str) ⊎ (str + arg_str_size ≤ x) → memset str 0 arg_str_size m x ≡ m x
      cleared x (inl below) = memset_lem str 0 arg_str_size m x ∙ ground (arith, below)
      cleared x (inr above) = memset_lem str 0 arg_str_size m x ∙ ground (arith, above)
