-- ===== src/Boot/Log/Quiet.antt =====
-- The log calls of kernel/core/kernel.c about the memory map return.
use mirus.Base.{ℕ, ◌≡◌, true, leb, arith, refl, sym, ap, ◌∙◌, List, [], ◌∷◌, ◌++◌}
use mirus.Base.Format.{codes, number}
use mirus.Logger.{log_debug}
use mirus.Logger.Text.{bytes, bytes-append}
use mirus.Logger.Message.{start_text, end_text}
use mirus.Pmm.{MemmapEntry, phys_to_virt, sum_entries, first_usable}
use mirus.Pmm.MemoryMap.{max_level}
use mirus.Pmm.MemoryMap.Document.{document_calls, map_document}
use mirus.Pmm.MemoryMap.Lines.{calls_text, log_memory_map_debug_lem}
use mirus.Boot.Log.{log_map, sized, pmm_before, pmm_after}
use mirus.Pmm.MemoryMap.Clean.{length-format_memory_size}
use mirus.SerialLog.Quiet.{args_size, all_named, Works, Quiet, Quiet-after, log-Quiet}
use mirus.SerialLog.{Output, ◌>>◌, log, info}

module _ (o : Output) (works : Works o) where
  -- The size of some memory is a short argument.
  pub sized-short : (size : ℕ) → leb (args_size (sized o size)) 300 ≡ true
  sized-short size =
      let short = length-format_memory_size o.snprintf_ size (works.snprintf_short) in
      ground (arith, short)

  pub pmm_after-short :
      (total usable physical_base kernel_size : ℕ)
      → all_named (pmm_after o total usable physical_base kernel_size) ≡ true
  pmm_after-short total usable physical_base kernel_size =
      ground (arith, sized-short total, sized-short usable, sized-short kernel_size)

  log_map-Quiet :
      (entries : List MemmapEntry) (total_memory usable_memory kernel_start kernel_size : ℕ)
      → Quiet (log_map o entries total_memory usable_memory kernel_start kernel_size)
  unfolding log_map
  log_map-Quiet entries total_memory usable_memory kernel_start kernel_size s =
      let (s', e, out) =
        log_memory_map_debug_lem o.jems o.arrays o.device works.bound works.drains o.fuel
          works.ready works.two o.buf o.memory o.snprintf_ entries total_memory usable_memory
          kernel_start kernel_size o.out s works.prints works.prints_arrays works.snprintf_clean
          works.map_short works.end_short works.map_fits works.end_fits in
      let first = start_text o.jems log_debug (codes "memory_manager") (codes "Memory Map") in
      let calls =
        calls_text o.jems o.arrays
          (document_calls
            (map_document o.snprintf_ entries total_memory usable_memory kernel_start kernel_size))
          (o.jems.init max_level) in
      (
        s',
        first ++ (calls ++ end_text o.jems),
        rw e refl,
        out
            ∙ ap (λ l. s.output ++ (bytes first ++ l)) (sym (bytes-append calls (end_text o.jems)))
            ∙ ap (λ l. s.output ++ l) (sym (bytes-append first (calls ++ end_text o.jems))),
      )

  pub pmm_before-Quiet :
      (usable : ℕ) (entries : List MemmapEntry) (physical_base kernel_size hhdm_offset : ℕ)
      → Quiet (pmm_before o usable entries physical_base kernel_size hhdm_offset)
  unfolding pmm_before
  pmm_before-Quiet usable entries physical_base kernel_size hhdm_offset =
      let sums = sum_entries usable 0 0 entries in
      let region = first_usable usable entries in
      let map = log_map o entries (sums.0) (sums.1) physical_base kernel_size in
      let l =
        info "memory_manager" "buddy allocator phys: 0x%016llx, virt: 0x%016llx, offset: %llu\n" (
          number region.0 ∷ number (phys_to_virt region.0 hhdm_offset) ∷ number hhdm_offset ∷ []) in
      Quiet-after (log o (info "memory_manager" "Reading memory map\n" (sized o 0)))
        (map >> log o l)
        (log-Quiet o works (info "memory_manager" "Reading memory map\n" (sized o 0))
          (sized-short 0))
        (Quiet-after map (log o l)
          (log_map-Quiet entries (sums.0) (sums.1) physical_base kernel_size)
          (log-Quiet o works l refl))
