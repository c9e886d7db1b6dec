-- ===== src/Gdt/Decode.antt =====
-- What the processor reads from the descriptors that hal/arch-x86_64/cpu/gdt.c builds.
use mirus.Base.{ℕ, ◌+◌, ◌-◌, ◌*◌, ◌/◌, ◌%◌, ◌^◌, ◌<◌, ◌≡◌, refl, arith}
use mirus.Base.Or.{bit_or_nibbles}
use mirus.Gdt.{
  GdtSegmentDescriptor, GdtState, gdt_create_segment_descriptor, gdt_initialize, tss_size,
  access_tss,
}

-- The fields as the processor puts them together: base, limit, and the flags above the limit.
abbrev pub base_of : GdtSegmentDescriptor → ℕ
base_of d = d.base_low + d.base_middle * 2 ^ 16 + d.base_high * 2 ^ 24

abbrev pub limit_of : GdtSegmentDescriptor → ℕ
limit_of d = d.limit_low + d.limit_high_flags % 2 ^ 4 * 2 ^ 16

abbrev pub flags_of : GdtSegmentDescriptor → ℕ
flags_of d = d.limit_high_flags / 2 ^ 4

-- The base of a system segment takes 64 bits of two entries.
abbrev pub system_base : (low high : GdtSegmentDescriptor) → ℕ
system_base low high = base_of low + (high.limit_low + high.base_low * 2 ^ 16) * 2 ^ 32

-- A descriptor for a 32-bit base and 4 bits of flags gives these back, with the access byte and
-- the low 20 bits of the limit.
pub gdt_create_segment_descriptor_lem :
    (base limit access flags : ℕ)
    → base < 2 ^ 32
    → flags < 2 ^ 4
    → (base_of (gdt_create_segment_descriptor base limit access flags) ≡ base)
      × (limit_of (gdt_create_segment_descriptor base limit access flags) ≡ limit % 2 ^ 20)
      × ((gdt_create_segment_descriptor base limit access flags).access ≡ access)
      × (flags_of (gdt_create_segment_descriptor base limit access flags) ≡ flags)
unfolding gdt_create_segment_descriptor
gdt_create_segment_descriptor_lem base limit access flags small nibble =
    let both = bit_or_nibbles (limit / 2 ^ 16 % 2 ^ 4) flags (omega arith) in
    (omega arith, omega (arith, both), refl, omega (arith, both))

-- After `gdt_initialize` entries 5 and 6 describe the task state: its whole 64-bit address, a
-- limit of its last byte, and the access byte of a task state; the stack pointer is in it.
pub gdt_initialize_tss :
    (kernel_stack_ptr tss_base : ℕ) (s : GdtState)
    → tss_base < 2 ^ 64
    → (system_base
          ((gdt_initialize kernel_stack_ptr tss_base s).gdt 5)
          ((gdt_initialize kernel_stack_ptr tss_base s).gdt 6)
        ≡ tss_base)
      × (limit_of ((gdt_initialize kernel_stack_ptr tss_base s).gdt 5) ≡ tss_size - 1)
      × (((gdt_initialize kernel_stack_ptr tss_base s).gdt 5).access ≡ access_tss)
      × ((gdt_initialize kernel_stack_ptr tss_base s).tss_rsp0 ≡ kernel_stack_ptr)
unfolding gdt_initialize
gdt_initialize_tss kernel_stack_ptr tss_base s h = (omega arith, refl, refl, refl)
