-- ===== src/Syscalls/Logged.antt =====
-- `syscall_handler` of kernel/core/syscalls.c with its log lines on the serial port. `snprintf_`
-- and the address of the static buffer are those of Format.antt.
pub mod Refines
mod Tests
use mirus.Base.{ℕ, zero, suc, ◌+◌, none, some, List, [], ◌∷◌, ltb, leb, ◌==◌, if◌then◌else◌}
use mirus.Base.Int.{pos}
use mirus.Base.Format.{Arg, number, text, chars, integer}
use mirus.Libk.{Memory}
use mirus.Logger.{LogLevel, log_debug, log_error}
use mirus.SerialLog.{Output, Line, Boot, pure, ◌>>=◌, ◌>>◌, log, info}
use mirus.Syscalls.{
  SystemCallArgs, SystemCallReturn, SystemCallEntry, syscall_count, syscall_table, returned,
  invalid_syscall, invalid_args, error_code,
}
use mirus.Syscalls.Format.{arg_str_size, format_syscall_args}
use Prim.Native.String.{String}

abbrev line : LogLevel → String → List Arg → Line
line level format args = record (info "syscalls" format args) { level = level }

abbrev pub entered : (number : ℕ) → Line
entered n = line log_debug "System call entered: {number=%d}\n" (number n ∷ [])

abbrev pub not_found : (number : ℕ) → Line
not_found n = line log_error "Invalid system call: No system call found\n" (number n ∷ [])

abbrev pub too_many : Line
too_many = line log_error "Invalid system call: Too many arguments\n" []

abbrev pub completed : SystemCallReturn → Line
completed result =
    line log_debug "System call completed: {return=%lld, error=%d}\n"
      (integer result.value ∷ integer (error_code result.error) ∷ [])

-- the characters that `%s` prints, up to a zero byte
abbrev pub characters : (rounds str : ℕ) → Memory → List ℕ
characters zero str m = []
characters (suc rounds) str m =
    let rest = characters rounds (str + 1) m in if m str == 0 then [] else m str ∷ rest

module _ (o : Output) (snprintf_ : (dest size : ℕ) → String → List Arg → Memory → ℕ × Memory)
    (str : ℕ) where
  abbrev pub dispatching : SystemCallEntry → SystemCallArgs → Line
  dispatching entry args =
      let buffer = (format_syscall_args snprintf_ args entry.num_args str o.memory).1 in
      line log_debug "Dispatching system call: {name=%s, args={%s}}\n"
        (text entry.name ∷ chars (characters arg_str_size str buffer) ∷ [])

  -- what follows the test of the number
  logged_dispatch : (n : ℕ) → SystemCallEntry → SystemCallArgs → Boot SystemCallReturn
  logged_dispatch n entry args = elim (entry.handler) [
    | none ↦ log o (not_found n) >> pure (returned (pos 0) invalid_syscall)
    | some handler ↦
        if ltb 6 entry.num_args
        then (log o too_many >> pure (returned (pos 0) invalid_args))
        else (log o (dispatching entry args)
            >> (log o (completed (handler args)) >> pure (handler args)))
  ]

  pub logged_syscall_handler : (n : ℕ) → SystemCallArgs → Boot SystemCallReturn
  unfolding logged_dispatch
  logged_syscall_handler n args =
      log o (entered n)
      >> (if leb syscall_count n
          then (log o (not_found n) >> pure (returned (pos 0) invalid_syscall))
          else logged_dispatch n (syscall_table n) args)
