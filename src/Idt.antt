-- ===== src/Idt.antt =====
-- hal/arch-x86_64/cpu/idt.c and hal/include/hal/idt.h, and `isr_initialize` of
-- kernel/core/interrupts.c. The loads of the processor's registers are left out, and the log lines
-- are in Boot/Log.antt. The addresses of the handlers in assembly are arguments.
pub mod Decode
mod Tests
use mirus.Base.{ℕ, zero, suc, ◌+◌, ◌*◌, ◌/◌, ◌%◌, ◌^◌, ltb, if◌then◌else◌, update}

abbrev pub idt_entries : ℕ
idt_entries = 256

pub record IdtSegmentDescriptor : Type 0 where
  pub offset_low : ℕ
  pub selector : ℕ
  pub ist : ℕ
  pub type_attributes : ℕ
  pub offset_middle : ℕ
  pub offset_high : ℕ
  pub must_be_zero : ℕ

-- the entry that a cleared table holds
abbrev pub zero_entry : IdtSegmentDescriptor
zero_entry = record {
  offset_low = 0;
  selector = 0;
  ist = 0;
  type_attributes = 0;
  offset_middle = 0;
  offset_high = 0;
  must_be_zero = 0;
}

pub idt_segment_create : (offset selector type_attr ist : ℕ) → IdtSegmentDescriptor
idt_segment_create offset selector type_attr ist = record {
  offset_low = offset % 2 ^ 16;
  selector = selector;
  ist = ist;
  type_attributes = type_attr;
  offset_middle = offset / 2 ^ 16 % 2 ^ 16;
  offset_high = offset / 2 ^ 32;
  must_be_zero = 0;
}

pub idt_set_entry : (index handler : ℕ) → (ℕ → IdtSegmentDescriptor) → ℕ → IdtSegmentDescriptor
unfolding idt_segment_create
idt_set_entry index handler idt = update idt index (idt_segment_create handler 0x08 0x8E 0)

-- the loop of `idt_initialize`, from entry `i` on
set_default : (rounds i handler : ℕ) → (ℕ → IdtSegmentDescriptor) → ℕ → IdtSegmentDescriptor
unfolding idt_set_entry
set_default zero i handler idt = idt
set_default (suc rounds) i handler idt =
    set_default rounds (i + 1) handler (idt_set_entry i handler idt)

-- `default_handler` is the address of `default_interrupt_handler`.
pub idt_initialize : (default_handler : ℕ) → (ℕ → IdtSegmentDescriptor) → ℕ → IdtSegmentDescriptor
unfolding set_default
idt_initialize default_handler idt =
    set_default idt_entries 0 default_handler (λ i. if ltb i idt_entries then zero_entry else idt i)

-- `isr k` is the address of `isrk`; the calls for 0 to 31 stand one after another in the source.
set_stubs : (rounds i : ℕ) → (isr : ℕ → ℕ) → (ℕ → IdtSegmentDescriptor) → ℕ → IdtSegmentDescriptor
unfolding idt_set_entry
set_stubs zero i isr idt = idt
set_stubs (suc rounds) i isr idt = set_stubs rounds (i + 1) isr (idt_set_entry i (isr i) idt)

pub isr_initialize : (isr : ℕ → ℕ) → (ℕ → IdtSegmentDescriptor) → ℕ → IdtSegmentDescriptor
unfolding set_stubs
isr_initialize isr idt = set_stubs 32 0 isr idt
