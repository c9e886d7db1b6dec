-- ===== src/Gdt.antt =====
-- hal/arch-x86_64/cpu/gdt.c and hal/include/hal/gdt.h: the segment descriptors and the table of
-- them. The loads of the processor's registers (assembly) are left out;
-- the log lines are in Boot/Log.antt.
pub mod Decode
mod Tests
use mirus.Base.{ℕ, ◌+◌, ◌-◌, ◌*◌, ◌/◌, ◌%◌, ◌^◌, ◌==◌, if◌then◌else◌, update}
use Prim.Native.Nat.{bit_or}

abbrev pub segment_base : ℕ
segment_base = 0

abbrev pub segment_limit : ℕ
segment_limit = 0xFFFFF

abbrev pub access_kernel_code : ℕ
access_kernel_code = 0x9A

abbrev pub access_kernel_data : ℕ
access_kernel_data = 0x92

abbrev pub access_user_code : ℕ
access_user_code = 0xFA

abbrev pub access_user_data : ℕ
access_user_data = 0xF2

abbrev pub access_tss : ℕ
access_tss = 0x89

abbrev pub flag_granularity_4kb : ℕ
flag_granularity_4kb = 0xC

abbrev pub flag_granularity_byte : ℕ
flag_granularity_byte = 0xA

-- `sizeof(TssSegmentDescriptor)`: 4 + 24 + 8 + 56 + 8 + 2 + 2 bytes, packed
abbrev pub tss_size : ℕ
tss_size = 104

pub record GdtSegmentDescriptor : Type 0 where
  pub limit_low : ℕ
  pub base_low : ℕ
  pub base_middle : ℕ
  pub access : ℕ
  pub limit_high_flags : ℕ
  pub base_high : ℕ

-- The table, and the two fields of the task state that are written: `rsp[0]` and `iomap_base`.
pub record GdtState : Type 0 where
  pub gdt : ℕ → GdtSegmentDescriptor
  pub tss_rsp0 : ℕ
  pub tss_iomap_base : ℕ

-- `base` and `limit` are 32-bit, `access` and `flags` 8-bit; the nibbles go into one byte.
pub gdt_create_segment_descriptor : (base limit access flags : ℕ) → GdtSegmentDescriptor
gdt_create_segment_descriptor base limit access flags = record {
  limit_low = limit % 2 ^ 16;
  base_low = base % 2 ^ 16;
  base_middle = base / 2 ^ 16 % 2 ^ 8;
  access = access;
  limit_high_flags = bit_or (limit / 2 ^ 16 % 2 ^ 4) (flags * 2 ^ 4) % 2 ^ 8;
  base_high = base / 2 ^ 24 % 2 ^ 8;
}

-- the descriptors of the task state at the 64-bit address `tss_base`
pub tss_low : (tss_base tss_limit : ℕ) → GdtSegmentDescriptor
tss_low tss_base tss_limit = record {
  limit_low = tss_limit % 2 ^ 16;
  base_low = tss_base % 2 ^ 16;
  base_middle = tss_base / 2 ^ 16 % 2 ^ 8;
  access = access_tss;
  limit_high_flags = bit_or (tss_limit / 2 ^ 16 % 2 ^ 4) 0;
  base_high = tss_base / 2 ^ 24 % 2 ^ 8;
}

pub tss_high : (tss_base : ℕ) → GdtSegmentDescriptor
tss_high tss_base = record {
  limit_low = tss_base / 2 ^ 32 % 2 ^ 16;
  base_low = tss_base / 2 ^ 48 % 2 ^ 16;
  base_middle = 0;
  access = 0;
  limit_high_flags = 0;
  base_high = 0;
}

-- `tss_base` is the address of the static task state.
unfoldable pub gdt_initialize : (kernel_stack_ptr tss_base : ℕ) → GdtState → GdtState
unfolding gdt_create_segment_descriptor tss_low tss_high
gdt_initialize kernel_stack_ptr tss_base s =
    let create = gdt_create_segment_descriptor in
    let g0 = update s.gdt 0 (create 0 0 0 0) in
    let g1 =
      update g0 1 (create segment_base segment_limit access_kernel_code flag_granularity_byte) in
    let g2 =
      update g1 2 (create segment_base segment_limit access_kernel_data flag_granularity_4kb) in
    let g3 =
      update g2 3 (create segment_base segment_limit access_user_code flag_granularity_byte) in
    let g4 =
      update g3 4 (create segment_base segment_limit access_user_data flag_granularity_4kb) in
    let g5 = update g4 5 (tss_low tss_base (tss_size - 1)) in
    record {
      gdt = update g5 6 (tss_high tss_base);
      tss_rsp0 = kernel_stack_ptr;
      tss_iomap_base = tss_size;
    }
