-- ===== src/Idt/Tests.antt =====
-- The table at concrete addresses.
use mirus.Base.{◌+◌, ◌≡◌, arith}
use mirus.Idt.{zero_entry, idt_initialize, isr_initialize}
use mirus.Idt.Decode.{offset_of, IsKernelGate, idt_handlers}

idt_handlers_example :
    (offset_of (
        isr_initialize (λ k. 0xFFFFFFFF80001000 + k) (idt_initialize 0x400000 (λ i. zero_entry)) 14)
      ≡ 0xFFFFFFFF8000100E)
    × IsKernelGate (
        isr_initialize (λ k. 0xFFFFFFFF80001000 + k) (idt_initialize 0x400000 (λ i. zero_entry)) 14)
idt_handlers_example =
    idt_handlers 0x400000 (λ k. 0xFFFFFFFF80001000 + k) (λ i. zero_entry) 14 (omega arith)
