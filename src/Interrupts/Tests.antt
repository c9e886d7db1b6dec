-- ===== src/Interrupts/Tests.antt =====
-- A page fault of a user's write to a page that is present.
use mirus.Base.{◌≡◌, refl, some}
use mirus.Interrupts.{fault_detail, panic, isr_handler}
use mirus.Interrupts.Fault.{isr_handler_detail}

overflow : isr_handler 0 0 4 ≡ panic "Overflow exception"
unfolding isr_handler
overflow = refl

fault_words :
    ((fault_detail 0x1234 7).present ≡ "present")
    × ((fault_detail 0x1234 7).write ≡ "write")
    × ((fault_detail 0x1234 7).user ≡ "user")
unfolding fault_detail
fault_words = (refl, refl, refl)

fault_passed_on : (isr_handler 0x1234 7 14).detail ≡ some (fault_detail 0x1234 7)
fault_passed_on = isr_handler_detail 0x1234 7 14
