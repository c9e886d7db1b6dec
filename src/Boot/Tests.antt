-- ===== src/Boot/Tests.antt =====
-- A start with two modules, of which the second is the font.
use mirus.Base.{
  ℕ, ◌+◌, ◌<◌, ◌≡◌, refl, arith, true, some, [], ◌∷◌, ltb, leb, ◌&&◌, ◌==◌, if◌then◌else◌,
}
use mirus.Libk.{Memory, check_string_ends_with}
use mirus.Terminal.{Framebuffer}
use mirus.Terminal.Write.{InRange, cells}
use mirus.Gdt.Decode.{system_base}
use mirus.Idt.{zero_entry}
use mirus.Idt.Decode.{offset_of, IsKernelGate}
use mirus.Buddy.Life.{IsSound}
use mirus.Pmm.{MemmapEntry}
use mirus.Pmm.Start.{fresh}
use mirus.Boot.{
  LimineFile, Requests, KernelState, running, halted, no_font, Machine, limine_get_file, start,
}
use mirus.Boot.Running.{limine_get_file_lem, start-running}

-- "zz" at 100, "a.fn" at 200 and the name "fn" at 300
abbrev texts : Memory
texts a =
    if leb 100 a && ltb a 102
    then 122
    else if a == 200
    then 97
    else if a == 201
    then 46
    else if a == 202
    then 102
    else if a == 203
    then 110
    else if a == 300
    then 102
    else if a == 301
    then 110
    else 0

abbrev other_file : LimineFile
other_file = record { path = 100 }

abbrev font_file : LimineFile
font_file = record { path = 200 }

abbrev screen : Framebuffer
screen = record { address = 0xFD000000; width = 1280; height = 800; pitch = 5120 }

abbrev low_memory : MemmapEntry
low_memory = record { base = 0; length = 0x1000; type = 1 }

abbrev main_memory : MemmapEntry
main_memory = record { base = 0x2000; length = 0x3010; type = 0 }

abbrev pub answers : Requests
answers = record {
  base_revision_supported = true;
  framebuffers = some (screen ∷ []);
  memory_map = some (low_memory ∷ main_memory ∷ []);
  physical_base = some 0x100000;
  kernel_file = some (some 0x20000);
  hhdm_offset = some 0x10000;
  modules = some (other_file ∷ font_file ∷ []);
}

abbrev pub machine : Machine
machine = record {
  memory = texts;
  font_name = 300;
  limine_memmap_usable = 0;
  kernel_stack_top = 0x9000;
  tss_base = 0x7000;
  default_handler = 0x400000;
  isr = λ k. 0x500000 + k;
  syscall_entry = 0x600000;
  edx = 0;
  pixels = λ i. 0;
  segments = record {
    gdt = λ i. record {
      limit_low = 0;
      base_low = 0;
      base_middle = 0;
      access = 0;
      limit_high_flags = 0;
      base_high = 0;
    };
    tss_rsp0 = 0;
    tss_iomap_base = 0;
  };
  idt = λ i. zero_entry;
  pmm = record {
    kernel_start = 0;
    kernel_end = 0;
    total_memory = 0;
    usable_memory = 0;
    buddy_allocator = record {
      memory = λ a. record { next = 0; size = 0 };
      allocator = record { start_address = 0; pool_size = 0; free_lists = λ order. 0 };
    };
  };
  msr = λ r. 0;
}

font_missing :
    start 9 machine (record answers { modules = some (other_file ∷ []) }) ≡ halted no_font
unfolding start check_string_ends_with
font_missing = refl

font_found : limine_get_file 9 300 texts (other_file ∷ font_file ∷ []) ≡ some (some font_file)
unfolding check_string_ends_with
font_found = limine_get_file_lem 9 300 texts (other_file ∷ []) font_file [] (refl, tt) refl

start-running_example :
    (s : KernelState) × (start 9 machine answers ≡ running s)
    × InRange s.terminal
    × (cells s.terminal ≡ 8000)
    × (system_base (s.segments.gdt 5) (s.segments.gdt 6) ≡ 0x7000)
    × (s.segments.tss_rsp0 ≡ 0x9000)
    × IsSound 0x12000 0x3010 (fresh s.pmm)
    × ((x : ℕ)
        → x < 256
        → (offset_of (s.idt x) ≡ (if ltb x 32 then 0x500000 + x else 0x400000))
          × IsKernelGate (s.idt x))
unfolding check_string_ends_with
start-running_example =
    start-running 9 machine answers screen [] (low_memory ∷ []) main_memory [] 0x100000 0x20000
      0x10000 (other_file ∷ []) font_file [] refl refl refl refl refl refl refl (omega arith)
      (omega arith) (omega arith) (omega arith) (refl, tt) refl (omega arith, tt) refl (omega arith)
      (omega arith) (omega arith) (omega arith) (omega arith)
