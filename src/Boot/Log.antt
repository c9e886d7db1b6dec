-- ===== src/Boot/Log.antt =====
-- The log lines of `_start` in kernel/core/kernel.c and of the starts that it calls, and the calls
-- that send them.
pub mod Quiet
use mirus.Base.{ℕ, ◌%◌, ◌^◌, ◌/◌, ◌*◌, List, [], ◌∷◌}
use mirus.Base.Format.{Arg, number, chars}
use mirus.Terminal.{Framebuffer}
use mirus.Logger.{log_fatal}
use mirus.DebugLogger.{debug_logger_initialize}
use mirus.Pmm.{MemmapEntry, phys_to_virt, sum_entries, first_usable}
use mirus.Pmm.MemoryMap.{format_memory_size, log_memory_map_debug}
use mirus.SerialLog.{Output, Line, Boot, ◌>>◌, returning, log, info, hal_info}
use Prim.Native.String.{String}

-- a line of `_start` without arguments
abbrev pub kernel_info : String → Line
kernel_info format = info "kernel" format []

abbrev pub kernel_fatal : String → Line
kernel_fatal format = record (kernel_info format) { level = log_fatal }

abbrev pub terminal_lines : Framebuffer → List Line
terminal_lines fb =
    info "drivers/terminal" "Initializing terminal {width=%d, height=%d, buffer_size=%d}\n" (
      number (fb.width / 8 % 2 ^ 32)
      ∷ number (fb.height / 16 % 2 ^ 32)
      ∷ number (fb.width / 8 % 2 ^ 32 * (fb.height / 16 % 2 ^ 32) % 2 ^ 32)
      ∷ [])
    ∷ []

-- the lines of `gdt_initialize`
abbrev pub gdt_lines : List Line
gdt_lines =
    hal_info "gdt" "Building GDT entries\n" []
    ∷ hal_info "gdt" "Building TSS entries\n" []
    ∷ hal_info "gdt" "TSS entries built\n" []
    ∷ hal_info "gdt" "GDT entries built\n" []
    ∷ hal_info "gdt" "Loading GDT\n" []
    ∷ hal_info "gdt" "GDT loaded\n" []
    ∷ hal_info "gdt" "Reloading segments\n" []
    ∷ hal_info "gdt" "Segments reloaded\n" []
    ∷ hal_info "gdt" "Loading TSS\n" []
    ∷ hal_info "gdt" "TSS loaded\n" []
    ∷ []

-- the lines of `idt_initialize`
abbrev pub idt_lines : List Line
idt_lines =
    hal_info "idt" "Building IDT entries\n" []
    ∷ hal_info "idt" "Built %d IDT entries\n" (number 256 ∷ [])
    ∷ hal_info "idt" "Loading IDT\n" []
    ∷ hal_info "idt" "IDT loaded\n" []
    ∷ []

-- the lines of `isr_initialize`
abbrev pub isr_lines : List Line
isr_lines =
    info "interrupts" "Registering ISRs\n" []
    ∷ info "interrupts" "Built IDT entries\n" []
    ∷ info "interrupts" "Enabling interrupts\n" []
    ∷ info "interrupts" "Interrupts enabled\n" []
    ∷ []

-- the lines of `syscalls_initialize`
abbrev pub syscalls_lines : List Line
syscalls_lines =
    info "syscalls" "Enabling syscall MSRs\n" []
    ∷ info "syscalls" "Enabled syscall MSRs\n" []
    ∷ info "syscalls" "Enabling syscall instruction in EFER\n" []
    ∷ info "syscalls" "Enabled syscall instruction\n" []
    ∷ info "syscalls" "Prefetching system call table\n" []
    ∷ info "syscalls" "System call table prefetched\n" []
    ∷ []

module _ (o : Output) where
  -- `log_memory_map_debug` on the logger of the kernel
  pub log_map :
      (entries : List MemmapEntry) (total_memory usable_memory kernel_start kernel_size : ℕ)
      → Boot (Unit {0})
  log_map entries total_memory usable_memory kernel_start kernel_size s = returning (
      log_memory_map_debug (debug_logger_initialize o.device o.fuel) o.buf o.memory o.jems o.arrays
        o.snprintf_ entries total_memory usable_memory kernel_start kernel_size o.out s)

  abbrev sized : ℕ → List Arg
  sized size = chars (format_memory_size o.snprintf_ size 64) ∷ []

  -- what `pmm_initialize` logs before the allocator starts
  pub pmm_before :
      (limine_memmap_usable : ℕ) (entries : List MemmapEntry)
      (physical_base kernel_size hhdm_offset : ℕ)
      → Boot (Unit {0})
  unfolding log_map
  pmm_before usable entries physical_base kernel_size hhdm_offset = do
    let sums = sum_entries usable 0 0 entries
    let region = first_usable usable entries
    log o (info "memory_manager" "Reading memory map\n" (sized 0))
    log_map entries sums.0 sums.1 physical_base kernel_size
    log o (
        info "memory_manager" "buddy allocator phys: 0x%016llx, virt: 0x%016llx, offset: %llu\n"
          (number region.0 ∷ number (phys_to_virt region.0 hhdm_offset) ∷ number hhdm_offset ∷ []))

  -- the lines after it
  abbrev pub pmm_after : (total usable physical_base kernel_size : ℕ) → List Line
  pmm_after total usable physical_base kernel_size =
      info "memory_manager" "Total system memory: %s\n" (sized total)
      ∷ info "memory_manager" "Usable system memory: %s\n" (sized usable)
      ∷ info "memory_manager" "Kernel address: %p\n" (number physical_base ∷ [])
      ∷ info "memory_manager" "Kernel size: %s\n" (sized kernel_size)
      ∷ []
