-- ===== src/Boot/Running.antt =====
-- `_start` of kernel/core/kernel.c: a kernel that has started, and the search of the font.
use mirus.Base.{
  ℕ, ◌+◌, ◌*◌, ◌/◌, ◌^◌, ◌≤◌, ◌<◌, ◌≡◌, ◌≢◌, refl, ap, ◌∙◌, arith, true, false, some, List, [], ◌∷◌,
  ◌++◌, ◌==◌, ltb, if◌then◌else◌,
}
use mirus.Libk.{Memory, check_string_ends_with}
use mirus.Terminal.{max_term_size, Framebuffer, terminal_initialize, screen_initialize}
use mirus.Terminal.Write.{InRange, cells}
use mirus.Terminal.Text.{terminal_initialize_lem}
use mirus.Gdt.{gdt_initialize}
use mirus.Gdt.Decode.{system_base, gdt_initialize_tss}
use mirus.Idt.{idt_initialize, isr_initialize}
use mirus.Syscalls.Msr.{syscalls_initialize}
use mirus.Idt.Decode.{offset_of, IsKernelGate, idt_handlers}
use mirus.Buddy.Life.{IsSound}
use mirus.Pmm.{MemmapEntry}
use mirus.Pmm.Start.{fresh, NoneUsable, lengths, usable_lengths, pmm_initialize-IsSound}
use mirus.Boot.{
  LimineFile, Requests, KernelState, running, Resources, present, check_requests, limine_get_file,
  Machine, with_pmm, with_font, with_modules, with_resources, start,
}

-- No path of a list ends with the name, as the suffix test has it.
abbrev pub NoMatch : (fuel name : ℕ) → Memory → List LimineFile → Type 0
NoMatch fuel name m [] = Unit
NoMatch fuel name m (f ∷ files) =
    (check_string_ends_with fuel f.path name m ≡ some false) × NoMatch fuel name m files

-- `limine_get_file` gives the first module for which the suffix test holds, if the test returns
-- for that one and for those before it.
pub limine_get_file_lem :
    (fuel name : ℕ) (m : Memory) (before : List LimineFile) (f : LimineFile)
    (after : List LimineFile)
    → NoMatch fuel name m before
    → check_string_ends_with fuel f.path name m ≡ some true
    → limine_get_file fuel name m (before ++ f ∷ after) ≡ some (some f)
unfolding limine_get_file
limine_get_file_lem fuel name m [] f after others match = rw (limine_get_file, match) refl
limine_get_file_lem fuel name m (b ∷ before) f after others match =
    rw (limine_get_file, others.0) (limine_get_file_lem fuel name m before f after (others.1) match)

check_requests_lem :
    (r : Requests) (fb : Framebuffer) (fbs : List Framebuffer) (before : List MemmapEntry)
    (e : MemmapEntry) (after : List MemmapEntry) (base size offset : ℕ)
    → r.base_revision_supported ≡ true
    → r.framebuffers ≡ some (fb ∷ fbs)
    → r.memory_map ≡ some (before ++ e ∷ after)
    → r.physical_base ≡ some base
    → r.kernel_file ≡ some (some size)
    → r.hhdm_offset ≡ some offset
    → base ≢ 0
    → check_requests r
      ≡ present (record {
        framebuffer = fb;
        entries = before ++ e ∷ after;
        physical_base = base;
        kernel_size = size;
        hhdm_offset = offset;
      })
unfolding check_requests
check_requests_lem r fb fbs [] e after base size offset v f mm b k o low =
    let there : (base == 0) ≡ false = ground (arith, low) in
    rw (check_requests, v, f, mm, b, k, o, there) refl
check_requests_lem r fb fbs (d ∷ before) e after base size offset v f mm b k o low =
    let there : (base == 0) ≡ false = ground (arith, low) in
    rw (check_requests, v, f, mm, b, k, o, there) refl

-- If the boot loader supports the revision and answers with a framebuffer of at least one
-- character and no more cells than the terminal's static buffer, a kernel location that is not 0, a
-- kernel file, an offset, a memory map as in `pmm_initialize` and modules of which one is the first
-- whose path the suffix test accepts as the font, then `_start` does not halt. The terminal has the
-- cells of the framebuffer and its cursor is on the screen. The two descriptors of the task state
-- lead to it, and it holds the kernel's stack. The allocator is sound over the first usable region
-- with no block out, and each of the 256 interrupts leads to its handler as a kernel gate.
pub start-running :
    (fuel : ℕ) (k : Machine) (r : Requests) (fb : Framebuffer) (fbs : List Framebuffer)
    (before : List MemmapEntry) (e : MemmapEntry) (after : List MemmapEntry) (base size offset : ℕ)
    (files : List LimineFile) (font : LimineFile) (others : List LimineFile)
    → r.base_revision_supported ≡ true
    → r.framebuffers ≡ some (fb ∷ fbs)
    → r.memory_map ≡ some (before ++ e ∷ after)
    → r.physical_base ≡ some base
    → r.kernel_file ≡ some (some size)
    → r.hhdm_offset ≡ some offset
    → r.modules ≡ some (files ++ font ∷ others)
    → base ≢ 0
    → 8 ≤ fb.width
    → 16 ≤ fb.height
    → fb.width / 8 * (fb.height / 16) ≤ max_term_size
    → NoMatch fuel k.font_name k.memory files
    → check_string_ends_with fuel font.path k.font_name k.memory ≡ some true
    → NoneUsable k.limine_memmap_usable before
    → e.type ≡ k.limine_memmap_usable
    → lengths k.limine_memmap_usable (before ++ e ∷ after) < 2 ^ 64
    → usable_lengths k.limine_memmap_usable (before ++ e ∷ after) < 2 ^ 64
    → k.tss_base < 2 ^ 64
    → 0 < e.base + offset
    → e.base + offset + e.length < 2 ^ 64
    → (s : KernelState) × (start fuel k r ≡ running s)
      × InRange s.terminal
      × (cells s.terminal ≡ fb.height / 16 * (fb.width / 8))
      × (system_base (s.segments.gdt 5) (s.segments.gdt 6) ≡ k.tss_base)
      × (s.segments.tss_rsp0 ≡ k.kernel_stack_top)
      × IsSound (e.base + offset) e.length (fresh s.pmm)
      × ((x : ℕ)
          → x < 256
          → (offset_of (s.idt x) ≡ (if ltb x 32 then k.isr x else k.default_handler))
            × IsKernelGate (s.idt x))
unfolding start with_resources with_modules with_font with_pmm
start-running fuel k r fb fbs before e after base size offset files font others v f mm b kf o ms low
      wide high small no_match match none_usable usable total sum tss above fits =
    let res : Resources = record {
      framebuffer = fb;
      entries = before ++ e ∷ after;
      physical_base = base;
      kernel_size = size;
      hhdm_offset = offset;
    } in
    let p =
      pmm_initialize-IsSound k.limine_memmap_usable before e after base size offset k.pmm
        none_usable usable total sum above fits in
    let found = limine_get_file_lem fuel k.font_name k.memory files font others no_match match in
    (
      record {
        terminal = terminal_initialize fb;
        screen = screen_initialize fb k.pixels;
        segments = gdt_initialize k.kernel_stack_top k.tss_base k.segments;
        idt = isr_initialize k.isr (idt_initialize k.default_handler k.idt);
        pmm = p.0;
        msr = syscalls_initialize k.syscall_entry k.edx k.msr;
      },
      ap (with_resources fuel k r)
            (check_requests_lem r fb fbs before e after base size offset v f mm b kf o low)
          ∙ ap (with_modules fuel k res) ms
          ∙ ap (with_font k res) found
          ∙ ap (with_pmm k res) (p.1),
      (terminal_initialize_lem fb wide high small).0,
      (terminal_initialize_lem fb wide high small).2,
      (gdt_initialize_tss k.kernel_stack_top k.tss_base k.segments tss).0,
      (gdt_initialize_tss k.kernel_stack_top k.tss_base k.segments tss).3,
      p.2,
      λ x. idt_handlers k.default_handler k.isr k.idt x,
    )
