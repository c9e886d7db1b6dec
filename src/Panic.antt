-- ===== src/Panic.antt =====
-- kernel/debug/panic.c, with `InterruptFrame` of hal/include/hal/idt.h and `putchar_` of
-- kernel/drivers/terminal.c. `printf_` is an argument: the characters that it passes to `putchar_`
-- for a format and its arguments; so is the text that `vsnprintf_` leaves for the logger.
pub mod Shown
pub mod Report
pub mod Halts
pub mod Plain
mod Tests
use mirus.Base.{ℕ, Bool, true, false, Option, none, some, List, [], ◌∷◌}
use mirus.Base.Format.{codes, Arg, number, text}
use mirus.Libk.{Memory}
use mirus.Serial.{Device, Serial}
use mirus.Terminal.{Terminal, Screen, terminal_clear, terminal_write_char, char_to_uint32}
use mirus.Logger.{log_fatal, Jems, log_message}
use mirus.DebugLogger.{debug_logger_initialize}
use mirus.Interrupts.{FaultDetail, Panic, isr_handler}
use Prim.Native.String.{String}

pub record InterruptFrame : Type 0 where
  pub r15 : ℕ
  pub r14 : ℕ
  pub r13 : ℕ
  pub r12 : ℕ
  pub r11 : ℕ
  pub r10 : ℕ
  pub r9 : ℕ
  pub r8 : ℕ
  pub rbp : ℕ
  pub rdi : ℕ
  pub rsi : ℕ
  pub rdx : ℕ
  pub rcx : ℕ
  pub rbx : ℕ
  pub rax : ℕ
  pub interrupt_number : ℕ
  pub error_code : ℕ
  pub rip : ℕ
  pub cs : ℕ
  pub rflags : ℕ
  pub rsp : ℕ
  pub ss : ℕ

-- The machine after `hcf`, which masks the interrupts and never returns.
pub record Halted : Type 0 where
  pub serial : Serial
  pub terminal : Terminal
  pub screen : Screen
  pub interrupts : Bool

pub hcf : Serial → Terminal × Screen → Halted
hcf serial (t, s) = record { serial = serial; terminal = t; screen = s; interrupts = false }

-- the format and the value of each line about the frame
abbrev pub frame_lines : InterruptFrame → List (String × ℕ)
frame_lines frame =
    ("RIP:     0x%lX\n", frame.rip)
    ∷ ("CS:      0x%lX\n", frame.cs)
    ∷ ("RFLAGS:  0x%lX\n", frame.rflags)
    ∷ ("RSP:     0x%lX\n", frame.rsp)
    ∷ ("SS:      0x%lX\n", frame.ss)
    ∷ ("RAX:     0x%lX\n", frame.rax)
    ∷ ("RBX:     0x%lX\n", frame.rbx)
    ∷ ("RCX:     0x%lX\n", frame.rcx)
    ∷ ("RDX:     0x%lX\n", frame.rdx)
    ∷ ("RSI:     0x%lX\n", frame.rsi)
    ∷ ("RDI:     0x%lX\n", frame.rdi)
    ∷ ("RBP:     0x%lX\n", frame.rbp)
    ∷ ("R8:      0x%lX\n", frame.r8)
    ∷ ("R9:      0x%lX\n", frame.r9)
    ∷ ("R10:     0x%lX\n", frame.r10)
    ∷ ("R11:     0x%lX\n", frame.r11)
    ∷ ("R12:     0x%lX\n", frame.r12)
    ∷ ("R13:     0x%lX\n", frame.r13)
    ∷ ("R14:     0x%lX\n", frame.r14)
    ∷ ("R15:     0x%lX\n", frame.r15)
    ∷ ("Interrupt Number: %lu\n", frame.interrupt_number)
    ∷ ("Error Code:       0x%lX\n", frame.error_code)
    ∷ []

-- the format that `isr_handler` passes for a page fault, and its arguments
abbrev pub fault_format : String
fault_format =
    "A page fault occurred.\nFaulting address: 0x%016llx\nError code: 0x%lX\nThe fault was caused by a %s during a %s in %s mode.\nThe fault %s.\nThe fault %s.\n"

abbrev pub fault_arguments : FaultDetail → List Arg
fault_arguments d =
    number d.fault_address
    ∷ number d.error_code
    ∷ text d.write
    ∷ text d.user
    ∷ text d.present
    ∷ text d.reserved
    ∷ text d.instruction
    ∷ []

module _ (ssfn_putc : ℕ → Screen → Screen) where
  pub putchar_ : ℕ → Terminal × Screen → Terminal × Screen
  putchar_ c state = terminal_write_char ssfn_putc (char_to_uint32 ssfn_putc c) state

  -- the characters of one `printf_`
  pub put_all : List ℕ → Terminal × Screen → Terminal × Screen
  unfolding putchar_
  put_all [] state = state
  put_all (c ∷ cs) state = put_all cs (putchar_ c state)

module _ (ssfn_putc : ℕ → Screen → Screen) (printf_ : String → List Arg → List ℕ) where
  unfoldable pub print : String → List Arg → Terminal × Screen → Terminal × Screen
  unfolding put_all
  print format args state = put_all ssfn_putc (printf_ format args) state

  pub print_lines : List (String × ℕ) → Terminal × Screen → Terminal × Screen
  unfolding print
  print_lines [] state = state
  print_lines ((format, value) ∷ rest) state =
      print_lines rest (print format (number value ∷ []) state)

  pub print_interrupt_frame : InterruptFrame → Terminal × Screen → Terminal × Screen
  unfolding print_lines
  print_interrupt_frame frame state = print_lines (frame_lines frame) state

  -- the lines that both functions print first
  pub panic_head : String → InterruptFrame → Terminal × Screen → Terminal × Screen
  unfolding print print_interrupt_frame
  panic_head error_message frame (t, s) =
      let s1 = print "Kernel panic!\n" [] (terminal_clear t, s) in
      let s2 = print "%s\n\n" (text error_message ∷ []) s1 in print_interrupt_frame frame s2

  module _ (jems : Jems) (vsnprintf_ : String → List Arg → ℕ → List ℕ) (device : Device)
      (fuel out : ℕ) (m : Memory) where
    -- `log_message` at the start of both functions
    pub log_panic : Serial → Option Serial
    log_panic serial =
        log_message jems (debug_logger_initialize device fuel) log_fatal (codes "kernel")
          (vsnprintf_ "Kernel panic encountered\n" []) out m serial

    pub kernel_panic : String → InterruptFrame → Serial → Terminal × Screen → Option Halted
    kernel_panic error_message frame serial state = elim (log_panic serial) [
      | none ↦ none
      | some serial' ↦
          let s1 = panic_head error_message frame state in
          some (hcf serial' (print "\nHalting and catching fire\n" [] s1))
    ]

    pub kernel_panic_detailed :
        String
        → InterruptFrame
        → (format : String) (args : List Arg) → Serial
        → Terminal × Screen
        → Option Halted
    kernel_panic_detailed error_message frame format args serial state = elim (log_panic serial) [
      | none ↦ none
      | some serial' ↦
          let s1 = panic_head error_message frame state in
          let s2 = print "\nAdditional Details:\n" [] s1 in
          let s3 = print format args s2 in
          some (hcf serial' (print "\nHalting and catching fire\n" [] s3))
    ]

    -- the call that `isr_handler` makes
    pub run_panic : Panic → InterruptFrame → Serial → Terminal × Screen → Option Halted
    unfolding kernel_panic kernel_panic_detailed
    run_panic p frame serial state = elim (p.detail) [
      | none ↦ kernel_panic p.message frame serial state
      | some d ↦ kernel_panic_detailed p.message frame fault_format (fault_arguments d) serial state
    ]

    -- The exceptions, of numbers below 32, have stubs that call `isr_handler`; the handler of the
    -- other numbers returns at once.
    pub on_exception :
        (cr2 interrupt_number : ℕ) → InterruptFrame → Serial → Terminal × Screen → Option Halted
    unfolding run_panic
    on_exception cr2 interrupt_number frame serial state =
        run_panic (isr_handler cr2 frame.error_code interrupt_number) frame serial state
