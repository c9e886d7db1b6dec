-- ===== src/DebugTests/Exceptions.antt =====
-- `debug_test_exceptions` of kernel/debug/debug_tests.c, whose division is the interrupt 0. The
-- frame is what the processor and the assembly stub leave.
use mirus.Base.{
  ℕ, ◌<◌, ◌≤◌, ◌≡◌, refl, ap, ◌∙◌, arith, false, Option, none, some, List, [], ◌++◌, length, inl,
}
use mirus.Base.Format.{codes, Arg}
use mirus.Libk.{Memory}
use mirus.Serial.{Device, Serial}
use mirus.Serial.Wait.{Drains}
use mirus.Terminal.{Terminal, Screen, terminal_clear, terminal_render}
use mirus.Terminal.Write.{InRange}
use mirus.Logger.{log_debug, log_fatal, Jems, max_log_message_size, log_message}
use mirus.Logger.Text.{bytes}
use mirus.Logger.Message.{PrintsText, message_line}
use mirus.DebugLogger.{debug_logger_initialize}
use mirus.DebugLogger.Lines.{log_message-debug_logger_initialize}
use mirus.Panic.{InterruptFrame, Halted, put_all, print, on_exception}
use mirus.Panic.Report.{report}
use mirus.Panic.Shown.{Verbatim, written, written-Continues, put_all_line}
use mirus.Panic.Halts.{VerbatimIn, on_exception_lem}
use Prim.Native.String.{String}

module _ (ssfn_putc : ℕ → Screen → Screen) (printf_ : String → List Arg → List ℕ) (jems : Jems)
    (vsnprintf_ : String → List Arg → ℕ → List ℕ) (device : Device) (fuel out : ℕ)
    (m : Memory) where
  -- What follows the division is not reached.
  pub debug_test_exceptions :
      (cr2 : ℕ) → InterruptFrame → Serial → Terminal × Screen → Option Halted
  debug_test_exceptions cr2 frame serial state =
      let shown = print ssfn_putc printf_ "Running exceptions test\n" [] state in
      elim (log_message jems (debug_logger_initialize device fuel) log_debug (codes "kernel")
        (vsnprintf_ "Running exceptions test\n" []) out m serial) [
          | none ↦ none
          | some serial' ↦
              on_exception ssfn_putc printf_ jems vsnprintf_ device fuel out m cr2 0 frame serial'
                shown
        ]

-- The run with a division by zero never comes back: if the transmitter drains, the emitter prints
-- no `\0`, the printf library leaves formats without `%` as they are, the cursor is on the screen
-- the fuel is beyond both log lines and these fit into the JSON buffer, it ends in the halt. The
-- port has got the line of the run and then the line of the panic; the terminal is what writing
-- the report on cleared cells leaves, and the line of the run is shown no more.
pub debug_test_exceptions-Halted :
    (ssfn_putc : ℕ → Screen → Screen) (printf_ : String → List Arg → List ℕ) (jems : Jems)
    (vsnprintf_ : String → List Arg → ℕ → List ℕ) (device : Device) (bound fuel out : ℕ)
    (m : Memory) (cr2 : ℕ) (frame : InterruptFrame) (serial : Serial) (t : Terminal) (s : Screen)
    → Drains bound device
    → bound ≤ fuel
    → PrintsText jems
    → Verbatim printf_
    → VerbatimIn vsnprintf_
    → InRange t
    → length (message_line jems log_debug (codes "kernel") (codes "Running exceptions test")) < fuel
    → length (message_line jems log_fatal (codes "kernel") (codes "Kernel panic encountered"))
      < fuel
    → length (message_line jems log_debug (codes "kernel") (codes "Running exceptions test"))
      < max_log_message_size
    → length (message_line jems log_fatal (codes "kernel") (codes "Kernel panic encountered"))
      < max_log_message_size
    → (h : Halted) × (debug_test_exceptions ssfn_putc printf_ jems vsnprintf_ device fuel out m cr2
          frame serial
          (t, s)
        ≡ some h)
      × (h.serial.output
          ≡ (serial.output
              ++ bytes
                  (message_line jems log_debug (codes "kernel") (codes "Running exceptions test")))
            ++ bytes
                (message_line jems log_fatal (codes "kernel") (codes "Kernel panic encountered")))
      × (h.terminal
          ≡ written ssfn_putc
              (report ssfn_putc printf_ cr2 0 frame)
              (terminal_clear (written ssfn_putc (codes "Running exceptions test\n") t)))
      × (h.interrupts ≡ false)
unfolding debug_test_exceptions print
debug_test_exceptions-Halted ssfn_putc printf_ jems vsnprintf_ device bound fuel out m cr2 frame
      serial t s drains ready prints plain plain_in r short panic_short fits panic_fits =
    let message = plain_in "Running exceptions test\n" max_log_message_size refl (omega arith) in
    let panic_line =
      message_line jems log_fatal (codes "kernel") (codes "Kernel panic encountered") in
    let (serial', log, hal, sent) =
      log_message-debug_logger_initialize device bound drains fuel ready jems prints log_debug
        (codes "kernel") (codes "Running exceptions test")
        (vsnprintf_ "Running exceptions test\n" []) out m serial (omega arith)
        (rw message (omega arith)) (inl message) short fits in
    let (before, line) = put_all_line ssfn_putc (codes "Running exceptions test") t s in
    let u = written ssfn_putc (codes "Running exceptions test\n") t in
    let (h, halts, panic_sent, shown, screen, kept, masked) =
      on_exception_lem ssfn_putc printf_ jems vsnprintf_ device bound fuel out m cr2 0 frame serial'
        u (terminal_render ssfn_putc u before) (omega arith) drains ready prints plain plain_in
        (written-Continues ssfn_putc (codes "Running exceptions test\n") t r).in_range panic_short
        panic_fits in
    let dies =
      on_exception ssfn_putc printf_ jems vsnprintf_ device fuel out m cr2 0 frame serial' in
    let printed =
      ap (λ cs. put_all ssfn_putc cs (t, s)) (plain "Running exceptions test\n" refl) ∙ line in
    (
      h,
      rw (debug_test_exceptions, log) (ap dies printed ∙ halts),
      panic_sent ∙ ap (λ o. o ++ bytes panic_line) sent,
      shown,
      masked,
    )
