-- ===== src/Boot/Logged/Reports.antt =====
-- `_start` of kernel/core/kernel.c with the serial port: what it leaves, and its last line
-- there or, if the kernel runs, the line before the report of the allocator.
use mirus.Base.{ℕ, List, []}
use mirus.Serial.{Serial}
use mirus.Pmm.{Pmm}
use mirus.Boot.{
  Halt, wrong_revision, no_framebuffer, no_memory_map, no_kernel_location, no_kernel_file,
  no_offset, no_font, Outcome, halted, null_access, stuck, running, Machine,
}
use mirus.SerialLog.{Output, Boot, Line}
use mirus.Boot.Log.{kernel_info, kernel_fatal}
use mirus.SerialLog.Quiet.{Works, line_text, Quiet, Ends}

-- the line that says why the kernel does not start
abbrev pub fatal_line : Halt → Line
fatal_line wrong_revision = kernel_fatal "Bootloader version not compatible\n"
fatal_line no_framebuffer = kernel_fatal "Couldn't get framebuffer\n"
fatal_line no_memory_map = kernel_fatal "Couldn't get memory map\n"
fatal_line no_kernel_location = kernel_fatal "Couldn't get kernel location\n"
fatal_line no_kernel_file = kernel_fatal "Couldn't get kernel file\n"
fatal_line no_offset = kernel_fatal "Couldn't get higher half direct memory offset\n"
fatal_line no_font = kernel_fatal "Couldn't load default font: u_vga16.sfn\n"

module _ (o : Output) where
  -- the last line for each outcome, for `running` up to the report of the allocator; none is known
  -- if the start does not end
  abbrev pub last_text : Outcome → List ℕ
  last_text (halted h) = line_text o (fatal_line h)
  last_text (running s) = line_text o (kernel_info "Kernel initialization complete\n")
  last_text stuck = []
  last_text null_access = []

module _ (o : Output) (works : Works o) (fuel : ℕ) (k : Machine) where
  abbrev Reports : Boot Outcome → Outcome → Type 0
  Reports m a = Ends (last_text o a) m a
