-- ===== src/Syscalls/Logged/Refines.antt =====
-- `syscall_handler` of kernel/core/syscalls.c with its log lines does what it does without them.
use mirus.Base.{ℕ, List, [], ◌∷◌, leb, if◌then◌else◌}
use mirus.Base.Format.{Arg}
use mirus.Libk.{Memory}
use mirus.Serial.{Serial}
use mirus.SerialLog.{Output, Line}
use mirus.SerialLog.Sends.{Sends}
use mirus.Syscalls.{SystemCallArgs, syscall_count, syscall_table, dispatch, syscall_handler}
use mirus.Syscalls.Logged.{entered, not_found, completed, dispatching}
use Prim.Native.String.{String}

module _ (o : Output) (snprintf_ : (dest size : ℕ) → String → List Arg → Memory → ℕ × Memory)
    (str : ℕ) where
  -- the lines of a call that is in the table, after the first
  abbrev found_lines : (n : ℕ) → SystemCallArgs → List Line
  found_lines n args =
      dispatching o snprintf_ str (syscall_table n) args
      ∷ completed (dispatch (syscall_table n) args)
      ∷ []

  -- the lines of one call
  abbrev pub call_lines : (n : ℕ) → SystemCallArgs → List Line
  call_lines n args =
      if leb syscall_count n
      then entered n ∷ not_found n ∷ []
      else entered n
        ∷ dispatching o snprintf_ str (syscall_table n) args
        ∷ completed (syscall_handler n args)
        ∷ []
