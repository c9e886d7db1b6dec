-- ===== src/Syscalls/Format.antt =====
-- `format_syscall_args` of kernel/core/syscalls.c. `snprintf_` is an argument: for an address, a
-- size, a format and its arguments it gives its result and the memory after it. `str` is the
-- address of the static buffer.
pub mod Bounds
mod Tests
use mirus.Base.{ℕ, zero, suc, ◌+◌, ◌-◌, ◌%◌, ◌^◌, ◌&&◌, List, [], ◌∷◌, ltb, ◌==◌, if◌then◌else◌}
use mirus.Base.Format.{Arg, number}
use mirus.Libk.{Memory, memset}
use mirus.Syscalls.{SystemCallArgs}
use Prim.Native.String.{String}

abbrev pub arg_str_size : ℕ
arg_str_size = 256

-- `sizeof(arg_str) - offset`, an unsigned word
abbrev pub room : (offset : ℕ) → ℕ
room offset = (arg_str_size + 2 ^ 64 - offset) % 2 ^ 64

module _ (snprintf_ : (dest size : ℕ) → String → List Arg → Memory → ℕ × Memory)
    (args : SystemCallArgs) (num_args str : ℕ) where
  -- one argument of the list, and the comma unless it is the last
  pub format_arg : (i offset : ℕ) → Memory → ℕ × Memory
  format_arg i offset m =
      let (n, m1) =
        snprintf_ (str + offset) (room offset) "arg%d=0x%llx"
          (number (i + 1) ∷ number (args i) ∷ []) m in
      let (k, m2) = snprintf_ (str + (offset + n)) (room (offset + n)) ", " [] m1 in
      if ltb (i + 1) num_args && ltb i 5 then (offset + n + k, m2) else (offset + n, m1)

  -- The loop, with `rounds` arguments left of the six.
  pub format_args : (rounds i offset : ℕ) → Memory → ℕ × Memory
  unfolding format_arg
  format_args zero i offset m = (offset, m)
  format_args (suc rounds) i offset m =
      let next = format_arg i offset m in
      let rest = format_args rounds (i + 1) next.0 next.1 in
      if ltb i num_args then rest else (offset, m)

  -- the last offset and the memory
  pub format_syscall_args : Memory → ℕ × Memory
  unfolding format_args
  format_syscall_args m = format_args 6 0 0 (memset str 0 arg_str_size m)
