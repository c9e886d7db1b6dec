-- ===== src/DebugTests/Tests.antt =====
-- The runs of debug_tests.c: on a pool of 64 pages, of the system calls, and with a small terminal.
use mirus.Base.{
  ℕ, false, ◌++◌, ◌+◌, ◌≡◌, refl, arith, Bool, true, ◌&&◌, Option, none, some, List, [], ◌∷◌, ltb,
}
use mirus.Base.Int.{pos, negsuc}
use mirus.Base.Format.{codes, number, integer}
use mirus.Syscalls.{error_code, syscall_handler}
use mirus.DebugTests.SystemCalls.{debug_test_syscalls}
use mirus.Terminal.{terminal_clear}
use mirus.Logger.{log_debug, log_fatal}
use mirus.Serial.Ready.{ready_port, ready_port-Drains, idle}
use mirus.Logger.Plain.{plain_jems, plain_jems-PrintsText}
use mirus.Logger.Text.{bytes}
use mirus.Logger.Message.{message_line}
use mirus.Panic.{Halted}
use mirus.Panic.Plain.{print_format, keep_format, no_pen, small_terminal, small_screen, zero_frame}
use mirus.Panic.Report.{report}
use mirus.Panic.Shown.{written}
use mirus.DebugTests.Exceptions.{debug_test_exceptions, debug_test_exceptions-Halted}
use mirus.Buddy.Life.{IsSound, Reach-IsSound, here}
use mirus.Buddy.{Heap, init, allocate, free}
use mirus.Buddy.Debug.{DebugState, debug_state}
use mirus.Pmm.{Pmm, pmm_alloc, pmm_free, pmm_debug_print_state}
use mirus.DebugTests.{Event, given, says, debug_test_buddy_allocator}
use mirus.DebugTests.Does.{AllGiven}
use mirus.DebugTests.Returns.{debug_test_buddy_allocator_lem}

abbrev empty : Heap
empty = record {
  memory = λ a. record { next = 0; size = 0 };
  allocator = record { start_address = 0; pool_size = 0; free_lists = λ order. 0 };
}

abbrev or_empty : Option Heap → Heap
or_empty none = empty
or_empty (some h) = h

abbrev ready : Heap
unfolding init
ready = or_empty (init empty 0x2000 0x40000)

abbrev started : Pmm
started = record {
  kernel_start = 0;
  kernel_end = 0;
  total_memory = 0;
  usable_memory = 0;
  buddy_allocator = ready;
}

started-IsSound : IsSound 0x2000 0x40000 (record { heap = started.buddy_allocator; blocks = [] })
unfolding init
started-IsSound = Reach-IsSound 0x2000 0x40000 empty ready (omega arith) (omega arith) refl here

abbrev all_given : List Event → Bool
all_given [] = true
all_given (given a ∷ es) = ltb 0 a && all_given es
all_given (says l ∷ es) = all_given es

all_given-AllGiven : (es : List Event) → all_given es ≡ true → AllGiven es
all_given-AllGiven [] h = tt
all_given-AllGiven (given a ∷ es) h = (ground (arith, h), all_given-AllGiven es (ground (arith, h)))
all_given-AllGiven (says l ∷ es) h = all_given-AllGiven es h

started-all_given : all_given (debug_test_buddy_allocator 65 started).0 ≡ true
unfolding debug_test_buddy_allocator pmm_alloc pmm_free init allocate free debug_state
    pmm_debug_print_state
started-all_given = refl

debug_test_buddy_allocator_lem_example :
    (d : DebugState) × (s' : Pmm) × ((debug_test_buddy_allocator 65 started).1 ≡ some (d, s'))
    × IsSound 0x2000 0x40000 (record { heap = s'.buddy_allocator; blocks = [] })
    × (d.total_free + 0 ≡ 0x40000)
debug_test_buddy_allocator_lem_example =
    debug_test_buddy_allocator_lem 0x2000 0x40000 started [] started-IsSound
      (all_given-AllGiven (debug_test_buddy_allocator 65 started).0 started-all_given)

-- Wherever the text of the test stands, the write call gives back its 20 bytes without an error,
-- and the number 15, which is no call, gives the error -1.
debug_test_syscalls_run :
    (test_str : ℕ)
    → debug_test_syscalls test_str
      ≡ ("Running system calls test\n", [])
        ∷ ("  Trying write syscall\n", [])
        ∷ ("  Write syscall test successful!\n", [])
        ∷ ("  Bytes written: %ld (expected %zu)\n", integer (pos 20) ∷ number 20 ∷ [])
        ∷ ("  Trying invalid syscall\n", [])
        ∷ ("  Invalid syscall test failed with error: %d\n", integer (negsuc 0) ∷ [])
        ∷ ("Done running system calls test\n", [])
        ∷ []
unfolding debug_test_syscalls syscall_handler error_code
debug_test_syscalls_run test_str = refl

small_terminal_halts :
    (h : Halted) × (debug_test_exceptions no_pen print_format plain_jems keep_format ready_port 100
        64
        (λ a. 0)
        0
        zero_frame
        idle
        (small_terminal, small_screen)
      ≡ some h)
    × (h.serial.output
        ≡ bytes
            (message_line plain_jems log_debug (codes "kernel") (codes "Running exceptions test"))
          ++ bytes (
              message_line plain_jems log_fatal
                (codes "kernel")
                (codes "Kernel panic encountered")))
    × (h.terminal
        ≡ written no_pen
            (report no_pen print_format 0 0 zero_frame)
            (terminal_clear (written no_pen (codes "Running exceptions test\n") small_terminal)))
    × (h.interrupts ≡ false)
small_terminal_halts =
    debug_test_exceptions-Halted no_pen print_format plain_jems keep_format ready_port 1 100 64
      (λ a. 0) 0 zero_frame idle small_terminal small_screen ready_port-Drains (omega arith)
      plain_jems-PrintsText (λ f h. refl) (λ f size h short. refl)
      (record { column = omega arith; row = omega arith }) (omega arith) (omega arith) (omega arith)
      (omega arith)
