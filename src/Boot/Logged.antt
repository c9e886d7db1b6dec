-- ===== src/Boot/Logged.antt =====
-- `_start` of kernel/core/kernel.c with the serial port: each test, each start and each log line
-- in the order of the code, up to the line that the initialization is complete. The text on the
-- screen and the report of the allocator behind it are left out. `stack` is what
-- `get_kernel_stack_ptr` gives.
pub mod Reports
mod Tests
use mirus.Base.{ℕ, Option, none, some, List, [], ◌∷◌, ◌==◌, if◌then◌else◌}
use mirus.Base.Format.{number}
use mirus.Serial.{serial_initialize}
use mirus.Terminal.{Framebuffer}
use mirus.Pmm.{MemmapEntry, Pmm, phys_to_virt, first_usable, pmm_initialize}
use mirus.Boot.{
  LimineFile, Requests, Halt, wrong_revision, no_framebuffer, no_memory_map, no_kernel_location,
  no_kernel_file, no_offset, no_font, Outcome, halted, null_access, stuck, Resources, Machine,
  limine_get_file, with_pmm,
}
use mirus.SerialLog.{Output, Boot, pure, ◌>>◌, log, log_all, info}
use mirus.Buddy.Logged.{log_init}
use mirus.Boot.Log.{
  kernel_info, kernel_fatal, terminal_lines, gdt_lines, idt_lines, isr_lines, syscalls_lines,
  pmm_before, pmm_after,
}
use Prim.Native.String.{String}

module _ (o : Output) where
  -- a log line, and `hcf`
  pub give_up : Halt → String → Boot Outcome
  give_up h format = do log o (kernel_fatal format); pure (halted h)

  -- the tables, between the terminal and the memory manager
  pub log_tables : Resources → Boot (Unit {0})
  log_tables r = do
    log_all o (kernel_info "Successfully loaded default font: u_vga16.sfn\n" ∷ [])
    log_all o (terminal_lines r.framebuffer)
    log_all o (
        kernel_info "Virtual terminal initialized\n"
        ∷ kernel_info "Starting GDT initialization\n"
        ∷ [])
    log_all o gdt_lines
    log_all o (
        kernel_info "Successfully initialized GDT\n"
        ∷ kernel_info "Starting IDT initialization\n"
        ∷ [])
    log_all o idt_lines
    log_all o (
        kernel_info "Successfully initialized IDT\n"
        ∷ kernel_info "Starting ISR initialization\n"
        ∷ [])
    log_all o isr_lines
    log_all o (
        kernel_info "Successfully initialized ISRs\n"
        ∷ kernel_info "Starting physical memory manager initialization\n"
        ∷ [])

module _ (o : Output) (fuel : ℕ) (k : Machine) where
  -- What follows once the memory manager has returned, up to the line that the initialization is
  -- complete (`printf_` and `pmm_debug_print_state` come after it).
  logged_pmm : Resources → Option Pmm → Boot Outcome
  logged_pmm r none = pure stuck
  logged_pmm r (some pmm) = do
    log_all o (pmm_after o pmm.total_memory pmm.usable_memory r.physical_base r.kernel_size)
    log_all o (
        kernel_info "Successfully initialized physical memory manager\n"
        ∷ kernel_info "Starting system call initialization\n"
        ∷ [])
    log_all o syscalls_lines
    log o (kernel_info "Successfully initialized system calls\n")
    log o (kernel_info "Kernel initialization complete\n")
    pure (with_pmm k r (some pmm))

  logged_font : Resources → Option (Option LimineFile) → Boot Outcome
  unfolding give_up log_tables logged_pmm
  logged_font r none = pure stuck
  logged_font r (some none) = give_up o no_font "Couldn't load default font: u_vga16.sfn\n"
  logged_font r (some (some font)) = do
    log_tables o r
    pmm_before o k.limine_memmap_usable r.entries r.physical_base r.kernel_size r.hhdm_offset
    let region = first_usable k.limine_memmap_usable r.entries
    log_init o (phys_to_virt region.0 r.hhdm_offset) region.1
    logged_pmm r (
        pmm_initialize k.limine_memmap_usable r.entries r.physical_base r.kernel_size r.hhdm_offset
          k.pmm)

  logged_modules : Resources → Option (List LimineFile) → Boot Outcome
  unfolding logged_font
  logged_modules r none = pure null_access
  logged_modules r (some files) = logged_font r (limine_get_file fuel k.font_name k.memory files)

  module _ (q : Requests) where
    logged_offset : Framebuffer → List MemmapEntry → (base size : ℕ) → Option ℕ → Boot Outcome
    unfolding give_up logged_modules
    logged_offset fb entries base size none =
        give_up o no_offset "Couldn't get higher half direct memory offset\n"
    logged_offset fb entries base size (some offset) = do
      log o (
          info "kernel" "Successfully found higher half direct memory offset: %llu\n"
            (number offset ∷ []))
      logged_modules
          (record {
            framebuffer = fb;
            entries = entries;
            physical_base = base;
            kernel_size = size;
            hhdm_offset = offset;
          })
          q.modules

    logged_file : Framebuffer → List MemmapEntry → (base : ℕ) → Option (Option ℕ) → Boot Outcome
    unfolding give_up logged_offset
    logged_file fb entries base none = give_up o no_kernel_file "Couldn't get kernel file\n"
    logged_file fb entries base (some none) = give_up o no_kernel_file "Couldn't get kernel file\n"
    logged_file fb entries base (some (some size)) = do
      log o (kernel_info "Successfully found kernel file\n")
      logged_offset fb entries base size q.hhdm_offset

    logged_location : Framebuffer → List MemmapEntry → Option ℕ → Boot Outcome
    unfolding give_up logged_file
    logged_location fb entries none = give_up o no_kernel_location "Couldn't get kernel location\n"
    logged_location fb entries (some base) =
        if base == 0
        then give_up o no_kernel_location "Couldn't get kernel location\n"
        else (log o (kernel_info "Successfully found kernel location\n")
            >> logged_file fb entries base q.kernel_file)

    logged_memory_map : Framebuffer → Option (List MemmapEntry) → Boot Outcome
    unfolding give_up logged_location
    logged_memory_map fb none = give_up o no_memory_map "Couldn't get memory map\n"
    logged_memory_map fb (some []) = give_up o no_memory_map "Couldn't get memory map\n"
    logged_memory_map fb (some (e ∷ es)) = do
      log o (kernel_info "Successfully loaded memory map\n")
      logged_location fb (e ∷ es) q.physical_base

    logged_framebuffer : Option (List Framebuffer) → Boot Outcome
    unfolding give_up logged_memory_map
    logged_framebuffer none = give_up o no_framebuffer "Couldn't get framebuffer\n"
    logged_framebuffer (some []) = give_up o no_framebuffer "Couldn't get framebuffer\n"
    logged_framebuffer (some (fb ∷ fbs)) = do
      log o (kernel_info "Successfully loaded framebuffer\n")
      logged_memory_map fb q.memory_map

    logged_revision : Boot Outcome
    unfolding give_up logged_framebuffer
    logged_revision =
        if q.base_revision_supported
        then (log_all o (
              kernel_info "Bootloader version compatible\n"
              ∷ info "kernel" "Successfully found kernel stack at: %p\n"
                  (number k.kernel_stack_top ∷ [])
              ∷ [])
            >> logged_framebuffer q.framebuffers)
        else give_up o wrong_revision "Bootloader version not compatible\n"

    -- `_start` from the reset of the serial port on
    pub logged_start : Boot Outcome
    unfolding logged_revision
    logged_start serial =
        (log_all o (
              kernel_info "Mirus kernel intialization\n"
              ∷ kernel_info "Serial driver loaded\n"
              ∷ [])
            >> logged_revision)
          (serial_initialize serial)
