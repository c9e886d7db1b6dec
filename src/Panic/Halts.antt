-- ===== src/Panic/Halts.antt =====
-- Every exception ends in `hcf` of kernel/debug/panic.c.
use mirus.Base.{
  ℕ, ◌<◌, ◌≤◌, ◌≡◌, refl, sym, ap, ◌∙◌, arith, false, Option, none, some, List, [], ◌∷◌, ◌++◌,
  length, has, inl,
}
use mathlib.Core.List.{append-nil, append_assoc}
use mirus.Libk.{Memory}
use mirus.Serial.{Device, Serial}
use mirus.Serial.Wait.{Drains}
use mirus.Terminal.{Terminal, Screen, terminal_clear, terminal_render}
use mirus.Terminal.Write.{InRange}
use mirus.Terminal.Text.{Continues, terminal_clear-InRange}
use mirus.Logger.{log_fatal, Jems, max_log_message_size}
use mirus.Logger.Text.{bytes}
use mirus.Logger.Message.{PrintsText, message_line}
use mirus.DebugLogger.Lines.{log_message-debug_logger_initialize}
use mirus.Interrupts.{FaultDetail, Panic, isr_handler}
use mirus.Base.Format.{codes, Arg}
use mirus.Panic.{
  InterruptFrame, Halted, hcf, fault_format, fault_arguments, put_all, print, log_panic, panic_head,
  kernel_panic, kernel_panic_detailed, run_panic, on_exception,
}
use mirus.Panic.Report.{report, panic_text-report}
use mirus.Panic.Shown.{
  Verbatim, written, written-Continues, put_all-append, put_all_line, head_text, detail_text,
  panic_text, head-put_all,
}
use Prim.Native.String.{String}

-- `vsnprintf_` leaves a format without `%` as it is, if the buffer holds it.
abbrev pub VerbatimIn : (String → List Arg → ℕ → List ℕ) → Type 0
VerbatimIn vsnprintf_ =
    (f : String) (size : ℕ)
    → has b'%' (codes f) ≡ false
    → length (codes f) < size
    → vsnprintf_ f [] size ≡ codes f

module _ (ssfn_putc : ℕ → Screen → Screen) (printf_ : String → List Arg → List ℕ)
    (plain : Verbatim printf_) where
  -- what both functions print, in one text
  shown :
      (p : Panic) (frame : InterruptFrame) (t : Terminal) (s : Screen)
      → (before : Screen) × (put_all ssfn_putc
            (panic_text ssfn_putc printf_ p frame)
            (terminal_clear t, s)
          ≡ (
            written ssfn_putc (panic_text ssfn_putc printf_ p frame) (terminal_clear t),
            terminal_render ssfn_putc
                (written ssfn_putc (panic_text ssfn_putc printf_ p frame) (terminal_clear t))
                before,
          ))
  shown p frame t s =
      let first =
        head_text ssfn_putc printf_ p.message frame ++ detail_text ssfn_putc printf_ p.detail in
      let last = codes "\nHalting and catching fire" in
      rw (append_assoc first last (b'\n' ∷ [])) at
        (put_all_line ssfn_putc (first ++ last) (terminal_clear t) s)

  -- the last line, behind a text `cs`
  ending :
      (cs : List ℕ) (base state : Terminal × Screen)
      → state ≡ put_all ssfn_putc cs base
      → print ssfn_putc printf_ "\nHalting and catching fire\n" [] state
        ≡ put_all ssfn_putc (cs ++ codes "\nHalting and catching fire\n") base
  unfolding print
  ending cs base state e =
      ap (λ l. put_all ssfn_putc l state) (plain "\nHalting and catching fire\n" refl)
      ∙ ap (put_all ssfn_putc (codes "\nHalting and catching fire\n")) e
      ∙ sym (put_all-append ssfn_putc cs (codes "\nHalting and catching fire\n") base)

  -- the head and the details
  detailed :
      (message : String) (d : FaultDetail) (frame : InterruptFrame) (t : Terminal) (s : Screen)
      → print ssfn_putc printf_ fault_format (fault_arguments d) (
          print ssfn_putc printf_ "\nAdditional Details:\n" []
            (panic_head ssfn_putc printf_ message frame (t, s)))
        ≡ put_all ssfn_putc
            (head_text ssfn_putc printf_ message frame ++ detail_text ssfn_putc printf_ (some d))
            (terminal_clear t, s)
  unfolding print
  detailed message d frame t s =
      let a = printf_ "\nAdditional Details:\n" [] in
      let b = printf_ fault_format (fault_arguments d) in
      let head = head_text ssfn_putc printf_ message frame in
      let base : Terminal × Screen = (terminal_clear t, s) in
      ap (λ st. put_all ssfn_putc b (put_all ssfn_putc a st))
        (head-put_all ssfn_putc printf_ message frame t s)
      ∙ sym (put_all-append ssfn_putc a b (put_all ssfn_putc head base))
      ∙ sym (put_all-append ssfn_putc head (a ++ b) base)

  module _ (jems : Jems) (vsnprintf_ : String → List Arg → ℕ → List ℕ) (device : Device)
      (fuel out : ℕ) (m : Memory) (frame : InterruptFrame) (serial logged : Serial)
      (log : log_panic ssfn_putc printf_ jems vsnprintf_ device fuel out m serial ≡ some logged)
      (t : Terminal) (s : Screen) where
    -- a panic with these details
    abbrev Ends : String → Option FaultDetail → Type 0
    Ends message detail =
        run_panic ssfn_putc printf_ jems vsnprintf_ device fuel out m
          (record { message = message; detail = detail }) frame serial (t, s)
        ≡ some (
            hcf logged (
              put_all ssfn_putc
                (panic_text ssfn_putc printf_ (record { message = message; detail = detail }) frame)
                (terminal_clear t, s)))

    run_panic-put_all : (message : String) (detail : Option FaultDetail) → Ends message detail
    unfolding run_panic kernel_panic kernel_panic_detailed
    run_panic-put_all message none =
        let head = head_text ssfn_putc printf_ message frame in
        let base : Terminal × Screen = (terminal_clear t, s) in
        let e : panic_head ssfn_putc printf_ message frame (t, s)
            ≡ put_all ssfn_putc (head ++ []) base =
          rw (append-nil head) (head-put_all ssfn_putc printf_ message frame t s) in
        rw (run_panic, kernel_panic, log)
          (ap (λ st. some (hcf logged st))
            (ending (head ++ []) base (panic_head ssfn_putc printf_ message frame (t, s)) e))
    run_panic-put_all message (some d) =
        let head = head_text ssfn_putc printf_ message frame in
        let base : Terminal × Screen = (terminal_clear t, s) in
        rw (run_panic, kernel_panic_detailed, log)
          (ap (λ st. some (hcf logged st))
            (ending (head ++ detail_text ssfn_putc printf_ (some d)) base _
              (detailed message d frame t s)))

-- An exception, which is an interrupt of a number below 32, ends with the machine halted and its
-- interrupts masked, if the transmitter drains within `bound` reads, the emitter prints text, both
-- functions of the printf library leave a format without `%` as it is, the cursor is on the screen,
-- the fuel is beyond the log line, and that line fits into the JSON buffer. The log line has gone to
-- the serial port. The terminal is what writing the report about the exception from the first cell
-- of a cleared terminal on leaves, so that what scrolls off is gone: the exception's message from
-- the table, each register of the frame behind its label, and for a page fault the address and the
-- bits of the error code. The screen shows that terminal; the cursor is on the screen and no cell
-- behind it is changed.
pub on_exception_lem :
    (ssfn_putc : ℕ → Screen → Screen) (printf_ : String → List Arg → List ℕ) (jems : Jems)
    (vsnprintf_ : String → List Arg → ℕ → List ℕ) (device : Device) (bound fuel out : ℕ)
    (m : Memory) (cr2 interrupt_number : ℕ) (frame : InterruptFrame) (serial : Serial)
    (t : Terminal) (s : Screen)
    → interrupt_number < 32
    → Drains bound device
    → bound ≤ fuel
    → PrintsText jems
    → Verbatim printf_
    → VerbatimIn vsnprintf_
    → InRange t
    → length (message_line jems log_fatal (codes "kernel") (codes "Kernel panic encountered"))
      < fuel
    → length (message_line jems log_fatal (codes "kernel") (codes "Kernel panic encountered"))
      < max_log_message_size
    → (h : Halted) × (on_exception ssfn_putc printf_ jems vsnprintf_ device fuel out m cr2
          interrupt_number frame serial
          (t, s)
        ≡ some h)
      × (h.serial.output
          ≡ serial.output
            ++ bytes
                (message_line jems log_fatal (codes "kernel") (codes "Kernel panic encountered")))
      × (h.terminal
          ≡ written ssfn_putc
              (report ssfn_putc printf_ cr2 interrupt_number frame)
              (terminal_clear t))
      × ((before : Screen) × (h.screen ≡ terminal_render ssfn_putc h.terminal before))
      × Continues (terminal_clear t) h.terminal
      × (h.interrupts ≡ false)
unfolding on_exception log_panic hcf
on_exception_lem ssfn_putc printf_ jems vsnprintf_ device bound fuel out m cr2 interrupt_number
      frame serial t s exception drains ready prints plain plain_in r short fits =
    let p = isr_handler cr2 frame.error_code interrupt_number in
    let cs = panic_text ssfn_putc printf_ p frame in
    let message = plain_in "Kernel panic encountered\n" max_log_message_size refl (omega arith) in
    let (logged, log, hal, out_bytes) =
      log_message-debug_logger_initialize device bound drains fuel ready jems prints log_fatal
        (codes "kernel") (codes "Kernel panic encountered")
        (vsnprintf_ "Kernel panic encountered\n" []) out m serial (omega arith)
        (rw message (omega arith)) (inl message) short fits in
    let (before, all) = shown ssfn_putc printf_ plain p frame t s in
    (
      hcf logged (
        written ssfn_putc cs (terminal_clear t),
        terminal_render ssfn_putc (written ssfn_putc cs (terminal_clear t)) before,
      ),
      run_panic-put_all ssfn_putc printf_ plain jems vsnprintf_ device fuel out m frame serial
            logged log t s p.message p.detail
          ∙ ap (λ st. some (hcf logged st)) all,
      out_bytes,
      ap (λ l. written ssfn_putc l (terminal_clear t))
          (panic_text-report ssfn_putc printf_ cr2 interrupt_number frame exception),
      (before, refl),
      written-Continues ssfn_putc cs (terminal_clear t) (terminal_clear-InRange t r),
      refl,
    )
