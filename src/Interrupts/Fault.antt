-- ===== src/Interrupts/Fault.antt =====
-- What the panic screen learns from `isr_handler` of kernel/core/interrupts.c.
use mirus.Base.{ℕ, ◌≡◌, arith, none, some, ◌==◌, if◌then◌else◌}
use mirus.Interrupts.{fault_detail, isr_handler}

-- Details come with a page fault and with nothing else, and they are those of the fault.
pub isr_handler_detail :
    (cr2 error_code n : ℕ)
    → (isr_handler cr2 error_code n).detail
      ≡ (if n == 14 then some (fault_detail cr2 error_code) else none)
unfolding isr_handler
isr_handler_detail cr2 error_code n = ground arith
