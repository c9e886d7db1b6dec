-- ===== src/Idt/Decode.antt =====
-- Which handler the processor finds in the table of hal/arch-x86_64/cpu/idt.c.
use mirus.Base.{ℕ, zero, suc, ◌+◌, ◌*◌, ◌^◌, ◌<◌, ◌≡◌, refl, arith, ltb, leb, ◌&&◌, if◌then◌else◌}
use mirus.Idt.{
  IdtSegmentDescriptor, zero_entry, idt_segment_create, idt_set_entry, set_default, idt_initialize,
  set_stubs, isr_initialize,
}

-- the address that the processor puts together, and whether the entry is a present interrupt gate
-- of the kernel's code segment on the current stack
abbrev pub offset_of : IdtSegmentDescriptor → ℕ
offset_of d = d.offset_low + d.offset_middle * 2 ^ 16 + d.offset_high * 2 ^ 32

abbrev pub IsKernelGate : IdtSegmentDescriptor → Type 0
IsKernelGate d =
    (d.selector ≡ 0x08) × (d.type_attributes ≡ 0x8E) × (d.ist ≡ 0) × (d.must_be_zero ≡ 0)

set_default_lem :
    (rounds i handler : ℕ) (idt : ℕ → IdtSegmentDescriptor) (x : ℕ)
    → set_default rounds i handler idt x
      ≡ (if leb i x && ltb x (i + rounds) then idt_segment_create handler 0x08 0x8E 0 else idt x)
unfolding set_default idt_set_entry
set_default_lem zero i handler idt x = ground arith
set_default_lem (suc rounds) i handler idt x =
    ground (arith, set_default_lem rounds (i + 1) handler (idt_set_entry i handler idt) x)

set_stubs_lem :
    (rounds i : ℕ) (isr : ℕ → ℕ) (idt : ℕ → IdtSegmentDescriptor) (x : ℕ)
    → set_stubs rounds i isr idt x
      ≡ (if leb i x && ltb x (i + rounds) then idt_segment_create (isr x) 0x08 0x8E 0 else idt x)
unfolding set_stubs idt_set_entry
set_stubs_lem zero i isr idt x = ground arith
set_stubs_lem (suc rounds) i isr idt x =
    ground (arith, set_stubs_lem rounds (i + 1) isr (idt_set_entry i (isr i) idt) x)

entry_lem :
    (n k default_handler : ℕ) (isr : ℕ → ℕ) (idt : ℕ → IdtSegmentDescriptor) (x : ℕ)
    → x < n
    → set_stubs k 0 isr (set_default n 0 default_handler idt) x
      ≡ idt_segment_create (if ltb x k then isr x else default_handler) 0x08 0x8E 0
entry_lem n k default_handler isr idt x h = ground (
  arith,
  set_stubs_lem k 0 isr (set_default n 0 default_handler idt) x,
  set_default_lem n 0 default_handler idt x,
)

initialized :
    (isr : ℕ → ℕ) (default_handler : ℕ) (idt : ℕ → IdtSegmentDescriptor) (x : ℕ)
    → x < 256
    → isr_initialize isr (idt_initialize default_handler idt) x
      ≡ idt_segment_create (if ltb x 32 then isr x else default_handler) 0x08 0x8E 0
unfolding isr_initialize idt_initialize
initialized isr default_handler idt x h =
    entry_lem 256 32 default_handler isr (λ i. if ltb i 256 then zero_entry else idt i) x h

gate_lem :
    (d : IdtSegmentDescriptor) (offset : ℕ)
    → d ≡ idt_segment_create offset 0x08 0x8E 0
    → (offset_of d ≡ offset) × IsKernelGate d
unfolding idt_segment_create
gate_lem d offset e = rw e (omega arith, (refl, refl, refl, refl))

-- After both starts each of the 256 entries leads to a handler as a kernel gate: the first 32 to
-- the stub of their own number, the others to the default handler.
pub idt_handlers :
    (default_handler : ℕ) (isr : ℕ → ℕ) (idt : ℕ → IdtSegmentDescriptor) (x : ℕ)
    → x < 256
    → (offset_of (isr_initialize isr (idt_initialize default_handler idt) x)
        ≡ (if ltb x 32 then isr x else default_handler))
      × IsKernelGate (isr_initialize isr (idt_initialize default_handler idt) x)
idt_handlers default_handler isr idt x h =
    gate_lem (isr_initialize isr (idt_initialize default_handler idt) x)
      (if ltb x 32 then isr x else default_handler) (initialized isr default_handler idt x h)
