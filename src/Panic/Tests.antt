-- ===== src/Panic/Tests.antt =====
-- A division by zero on a terminal of two cells, with a printf that prints each format as it is.
use mirus.Base.{◌≡◌, refl, arith, false, some}
use mirus.Terminal.{Screen, terminal_clear, terminal_render}
use mirus.Terminal.Text.{Continues}
use mirus.Logger.{log_fatal}
use mirus.Serial.Ready.{ready_port, ready_port-Drains, idle}
use mirus.Logger.Plain.{plain_jems, plain_jems-PrintsText}
use mirus.Logger.Text.{bytes}
use mirus.Logger.Message.{message_line}
use mirus.Base.Format.{codes}
use mirus.Panic.{Halted, on_exception}
use mirus.Panic.Plain.{print_format, keep_format, no_pen, small_terminal, small_screen, zero_frame}
use mirus.Panic.Report.{report}
use mirus.Panic.Shown.{written}
use mirus.Panic.Halts.{on_exception_lem}

on_exception_lem_example :
    (h : Halted) × (on_exception no_pen print_format plain_jems keep_format ready_port 100 64
        (λ a. 0)
        0
        0
        zero_frame
        idle
        (small_terminal, small_screen)
      ≡ some h)
    × (h.serial.output
        ≡ bytes
            (message_line plain_jems log_fatal (codes "kernel") (codes "Kernel panic encountered")))
    × (h.terminal
        ≡ written no_pen
            (report no_pen print_format 0 0 zero_frame)
            (terminal_clear small_terminal))
    × ((before : Screen) × (h.screen ≡ terminal_render no_pen h.terminal before))
    × Continues (terminal_clear small_terminal) h.terminal
    × (h.interrupts ≡ false)
on_exception_lem_example =
    on_exception_lem no_pen print_format plain_jems keep_format ready_port 1 100 64 (λ a. 0) 0 0
      zero_frame idle small_terminal small_screen (omega arith) ready_port-Drains (omega arith)
      plain_jems-PrintsText (λ f h. refl) (λ f size h short. refl)
      (record { column = omega arith; row = omega arith }) (omega arith) (omega arith)
