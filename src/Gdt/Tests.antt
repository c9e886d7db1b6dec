-- ===== src/Gdt/Tests.antt =====
-- The descriptors of concrete segments.
use mirus.Base.{◌≡◌, refl, arith, ◌-◌}
use mirus.Gdt.{
  GdtState, gdt_create_segment_descriptor, gdt_initialize, access_user_code, access_user_data,
  tss_size, access_tss,
}
use mirus.Gdt.Decode.{
  base_of, limit_of, flags_of, system_base, gdt_create_segment_descriptor_lem, gdt_initialize_tss,
}

abbrev empty : GdtState
empty = record {
  gdt = λ i. record {
    limit_low = 0;
    base_low = 0;
    base_middle = 0;
    access = 0;
    limit_high_flags = 0;
    base_high = 0;
  };
  tss_rsp0 = 0;
  tss_iomap_base = 0;
}

user_code_before_data :
    (((gdt_initialize 0x9000 0x123456789ABC empty).gdt 3).access ≡ access_user_code)
    × (((gdt_initialize 0x9000 0x123456789ABC empty).gdt 4).access ≡ access_user_data)
unfolding gdt_initialize
user_code_before_data = (refl, refl)

gdt_create_segment_descriptor_lem_example :
    (base_of (gdt_create_segment_descriptor 0x12345678 0xFFFFF 0x9A 0xA) ≡ 0x12345678)
    × (limit_of (gdt_create_segment_descriptor 0x12345678 0xFFFFF 0x9A 0xA) ≡ 0xFFFFF)
    × ((gdt_create_segment_descriptor 0x12345678 0xFFFFF 0x9A 0xA).access ≡ 0x9A)
    × (flags_of (gdt_create_segment_descriptor 0x12345678 0xFFFFF 0x9A 0xA) ≡ 0xA)
gdt_create_segment_descriptor_lem_example =
    gdt_create_segment_descriptor_lem 0x12345678 0xFFFFF 0x9A 0xA (omega arith) (omega arith)

gdt_initialize_tss_example :
    (system_base
        ((gdt_initialize 0x9000 0x123456789ABC empty).gdt 5)
        ((gdt_initialize 0x9000 0x123456789ABC empty).gdt 6)
      ≡ 0x123456789ABC)
    × (limit_of ((gdt_initialize 0x9000 0x123456789ABC empty).gdt 5) ≡ tss_size - 1)
    × (((gdt_initialize 0x9000 0x123456789ABC empty).gdt 5).access ≡ access_tss)
    × ((gdt_initialize 0x9000 0x123456789ABC empty).tss_rsp0 ≡ 0x9000)
gdt_initialize_tss_example = gdt_initialize_tss 0x9000 0x123456789ABC empty (omega arith)
