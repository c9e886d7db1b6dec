-- ===== src/Pmm.antt =====
-- kernel/memory/pmm.c: reading the memory map of the boot loader and handing its first usable
-- region to the buddy allocator. The log calls of the start are in
-- Boot/Log.antt. `limine_memmap_usable` is the boot protocol's number for usable memory.
pub mod Start
pub mod MemoryMap
mod Tests
use mirus.Base.{
  ℕ, ◌+◌, ◌-◌, ◌*◌, ◌%◌, ◌^◌, Option, none, some, List, [], ◌∷◌, ◌==◌, if◌then◌else◌, update,
}
use Prim.Native.Nat.{bit_and}
use mirus.Buddy.Debug.{DebugState, debug_state}
use mirus.Buddy.{Heap, page_size, word, init, allocate, free}

-- the fields of `limine_memmap_entry`
pub record MemmapEntry : Type 0 where
  pub base : ℕ
  pub length : ℕ
  pub type : ℕ

-- the static variables, with the memory behind the allocator's pointers
pub record Pmm : Type 0 where
  pub kernel_start : ℕ
  pub kernel_end : ℕ
  pub total_memory : ℕ
  pub usable_memory : ℕ
  pub buddy_allocator : Heap

-- `phys_to_virt` of kernel/include/kernel/paging.h
pub phys_to_virt : (phys hhdm_offset : ℕ) → ℕ
phys_to_virt phys hhdm_offset = word (phys + hhdm_offset)

-- `(kernel_end + PAGE_SIZE - 1) & ~(PAGE_SIZE - 1)`
pub round_to_page : ℕ → ℕ
round_to_page a = bit_and (word (a + page_size - 1)) (2 ^ 64 - page_size)

-- The variables once the allocator has started, which is `none` if it does not return.
pub with_allocator : (physical_base kernel_size : ℕ) → ℕ × ℕ → Option Heap → Option Pmm
unfolding round_to_page
with_allocator physical_base kernel_size sums none = none
with_allocator physical_base kernel_size sums (some heap) = some (record {
  kernel_start = physical_base;
  kernel_end = round_to_page (word (physical_base + kernel_size));
  total_memory = sums.0;
  usable_memory = sums.1;
  buddy_allocator = heap;
})

module _ (limine_memmap_usable : ℕ) where
  -- The first loop of `pmm_initialize`: the sums of all lengths and of the usable ones.
  pub sum_entries : (total usable : ℕ) → List MemmapEntry → ℕ × ℕ
  sum_entries total usable [] = (total, usable)
  sum_entries total usable (entry ∷ entries) =
      sum_entries (word (total + entry.length))
        (if entry.type == limine_memmap_usable then word (usable + entry.length) else usable)
        entries

  -- The second loop: start and size of the first usable region, or zeros.
  pub first_usable : List MemmapEntry → ℕ × ℕ
  first_usable [] = (0, 0)
  first_usable (entry ∷ entries) =
      let rest = first_usable entries in
      if entry.type == limine_memmap_usable then (entry.base, entry.length) else rest

  pub pmm_initialize :
      (entries : List MemmapEntry) (physical_base kernel_size hhdm_offset : ℕ) → Pmm → Option Pmm
  unfolding sum_entries first_usable phys_to_virt with_allocator
  pmm_initialize entries physical_base kernel_size hhdm_offset s =
      let region = first_usable entries in
      with_allocator physical_base kernel_size (sum_entries 0 0 entries)
        (init s.buddy_allocator (phys_to_virt (region.0) hhdm_offset) (region.1))

unfoldable pub pmm_alloc : ℕ → Pmm → ℕ × Pmm
pmm_alloc size s =
    let r = allocate s.buddy_allocator size in (r.0, record s { buddy_allocator = r.1 })

unfoldable pub pmm_free : (fuel address : ℕ) → Pmm → Option Pmm
pmm_free fuel address s = elim (free fuel s.buddy_allocator address) [
  | none ↦ none
  | some heap ↦ some (record s { buddy_allocator = heap })
]

-- what `pmm_debug_print_state` reports
unfoldable pub pmm_debug_print_state : (fuel : ℕ) → Pmm → Option DebugState
pmm_debug_print_state fuel s = debug_state fuel s.buddy_allocator
