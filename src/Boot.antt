-- ===== src/Boot.antt =====
-- `_start` of kernel/core/kernel.c and `limine_get_file` of kernel/include/kernel/bootloader.h:
-- from the answers of the boot loader to a kernel that has started. The log calls, and the serial
-- port that they write to, are in Boot/Logged.antt and Boot/Log.antt; left out are the text on the
-- screen and the debug output at the end. What `_start` takes from the
-- linker and the boot loader by address is an argument.
pub mod Running
pub mod Log
pub mod Logged
mod Tests
use mirus.Base.{
  ℕ, zero, suc, Bool, true, false, Option, none, some, List, [], ◌∷◌, ◌==◌, if◌then◌else◌,
}
use mirus.Libk.{Memory, check_string_ends_with}
use mirus.Terminal.{Terminal, Framebuffer, Screen, terminal_initialize, screen_initialize}
use mirus.Gdt.{GdtState, gdt_initialize}
use mirus.Idt.{IdtSegmentDescriptor, idt_initialize, isr_initialize}
use mirus.Pmm.{MemmapEntry, Pmm, pmm_initialize}
use mirus.Syscalls.Msr.{syscalls_initialize}

-- the field of `limine_file` that is read here: the address of its path
pub record LimineFile : Type 0 where
  pub path : ℕ

-- The answers to the requests: `none` is a response that is `NULL`, and in `kernel_file` also a
-- file that is; the last is the size of the file.
pub record Requests : Type 0 where
  pub base_revision_supported : Bool
  pub framebuffers : Option (List Framebuffer)
  pub memory_map : Option (List MemmapEntry)
  pub physical_base : Option ℕ
  pub kernel_file : Option (Option ℕ)
  pub hhdm_offset : Option ℕ
  pub modules : Option (List LimineFile)

-- why `_start` calls `hcf`
pub data Halt : Type 0 where
  wrong_revision no_framebuffer no_memory_map no_kernel_location no_kernel_file no_offset no_font :
      Halt

pub record KernelState : Type 0 where
  pub terminal : Terminal
  pub screen : Screen
  pub segments : GdtState
  pub idt : ℕ → IdtSegmentDescriptor
  pub pmm : Pmm
  pub msr : ℕ → ℕ

-- `null_access` is the read of a module list that is not there, which is not tested; `stuck` is a
-- loop that does not end.
pub data Outcome : Type 0 where
  halted : Halt → Outcome
  null_access stuck : Outcome
  running : KernelState → Outcome

-- what the tests before the font leave
pub record Resources : Type 0 where
  pub framebuffer : Framebuffer
  pub entries : List MemmapEntry
  pub physical_base : ℕ
  pub kernel_size : ℕ
  pub hhdm_offset : ℕ

pub data Checked : Type 0 where
  missing : Halt → Checked
  present : Resources → Checked

check_offset : Framebuffer → List MemmapEntry → (base size : ℕ) → Option ℕ → Checked
check_offset fb entries base size none = missing no_offset
check_offset fb entries base size (some offset) = present (record {
  framebuffer = fb;
  entries = entries;
  physical_base = base;
  kernel_size = size;
  hhdm_offset = offset;
})

check_file : Framebuffer → List MemmapEntry → (base : ℕ) → Option (Option ℕ) → Option ℕ → Checked
unfolding check_offset
check_file fb entries base none offset = missing no_kernel_file
check_file fb entries base (some none) offset = missing no_kernel_file
check_file fb entries base (some (some size)) offset = check_offset fb entries base size offset

check_location : Framebuffer → List MemmapEntry → Requests → Option ℕ → Checked
unfolding check_file
check_location fb entries r none = missing no_kernel_location
check_location fb entries r (some base) =
    let rest = check_file fb entries base r.kernel_file r.hhdm_offset in
    if base == 0 then missing no_kernel_location else rest

check_memory_map : Framebuffer → Requests → Option (List MemmapEntry) → Checked
unfolding check_location
check_memory_map fb r none = missing no_memory_map
check_memory_map fb r (some []) = missing no_memory_map
check_memory_map fb r (some (e ∷ es)) = check_location fb (e ∷ es) r r.physical_base

check_framebuffer : Requests → Option (List Framebuffer) → Checked
unfolding check_memory_map
check_framebuffer r none = missing no_framebuffer
check_framebuffer r (some []) = missing no_framebuffer
check_framebuffer r (some (fb ∷ fbs)) = check_memory_map fb r r.memory_map

-- The tests of `_start` in their order.
pub check_requests : Requests → Checked
unfolding check_framebuffer
check_requests r =
    if r.base_revision_supported then check_framebuffer r r.framebuffers else missing wrong_revision

-- The first module whose path ends with a name: `some none` is `NULL`, `none` the end of fuel.
pub limine_get_file : (fuel name : ℕ) → Memory → List LimineFile → Option (Option LimineFile)
limine_get_file fuel name m [] = some none
limine_get_file fuel name m (f ∷ files) =
    let rest = limine_get_file fuel name m files in
    elim (check_string_ends_with fuel (f.path) name m) [
      | none ↦ none
      | some true ↦ some (some f)
      | some false ↦ rest
    ]

-- What the linker, the boot loader and the state before the start give.
pub record Machine : Type 0 where
  pub memory : Memory
  pub font_name : ℕ
  pub limine_memmap_usable : ℕ
  pub kernel_stack_top : ℕ
  pub tss_base : ℕ
  pub default_handler : ℕ
  pub isr : ℕ → ℕ
  pub syscall_entry : ℕ
  pub edx : ℕ
  pub pixels : ℕ → ℕ
  pub segments : GdtState
  pub idt : ℕ → IdtSegmentDescriptor
  pub pmm : Pmm
  pub msr : ℕ → ℕ

-- the state once the memory manager has started
with_pmm : Machine → Resources → Option Pmm → Outcome
with_pmm k r none = stuck
with_pmm k r (some pmm) = running (record {
  terminal = terminal_initialize r.framebuffer;
  screen = screen_initialize r.framebuffer k.pixels;
  segments = gdt_initialize k.kernel_stack_top k.tss_base k.segments;
  idt = isr_initialize k.isr (idt_initialize k.default_handler k.idt);
  pmm = pmm;
  msr = syscalls_initialize k.syscall_entry k.edx k.msr;
})

-- `_start` from the font on
with_font : Machine → Resources → Option (Option LimineFile) → Outcome
unfolding with_pmm
with_font k r none = stuck
with_font k r (some none) = halted no_font
with_font k r (some (some font)) = with_pmm k r (
    pmm_initialize k.limine_memmap_usable r.entries r.physical_base r.kernel_size r.hhdm_offset
      k.pmm)

with_modules : (fuel : ℕ) → Machine → Resources → Option (List LimineFile) → Outcome
unfolding with_font limine_get_file
with_modules fuel k r none = null_access
with_modules fuel k r (some files) = with_font k r (limine_get_file fuel k.font_name k.memory files)

with_resources : (fuel : ℕ) → Machine → Requests → Checked → Outcome
unfolding with_modules
with_resources fuel k requests (missing h) = halted h
with_resources fuel k requests (present r) = with_modules fuel k r requests.modules

pub start : (fuel : ℕ) → Machine → Requests → Outcome
unfolding with_resources check_requests
start fuel k requests = with_resources fuel k requests (check_requests requests)
