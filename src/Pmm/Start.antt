-- ===== src/Pmm/Start.antt =====
-- What `pmm_initialize` leaves, and that what `pmm_alloc` hands out can go back by `pmm_free`.
use mirus.Base.{
  ℕ, ◌+◌, ◌/◌, ◌^◌, ◌<◌, ◌≡◌, ◌≢◌, refl, ap, ◌∙◌, some, List, [], ◌∷◌, ◌++◌, ◌==◌, if◌then◌else◌,
  arith, true, false,
}
use mirus.Buddy.{page_size, word, null, init, find_order}
use mirus.Buddy.Init.{init-Leaves}
use mirus.Buddy.Life.{Kernel, IsSound, alloc-IsSound, free-IsSound}
use mirus.Pmm.{
  MemmapEntry, Pmm, phys_to_virt, round_to_page, with_allocator, sum_entries, first_usable,
  pmm_initialize, pmm_alloc, pmm_free,
}

-- the allocator of a memory manager with no block out
abbrev pub fresh : Pmm → Kernel
fresh s = record { heap = s.buddy_allocator; blocks = [] }

module _ (limine_memmap_usable : ℕ) where
  -- No region of a list is usable.
  abbrev pub NoneUsable : List MemmapEntry → Type 0
  NoneUsable [] = Unit
  NoneUsable (e ∷ es) = (e.type ≢ limine_memmap_usable) × NoneUsable es

  -- the sum of all lengths, and of those of usable regions
  abbrev pub lengths : List MemmapEntry → ℕ
  lengths [] = 0
  lengths (e ∷ es) = e.length + lengths es

  abbrev pub usable_lengths : List MemmapEntry → ℕ
  usable_lengths [] = 0
  usable_lengths (e ∷ es) =
      (if e.type == limine_memmap_usable then e.length else 0) + usable_lengths es

  sum_entries_lem :
      (total usable : ℕ) (es : List MemmapEntry)
      → total + lengths es < 2 ^ 64
      → usable + usable_lengths es < 2 ^ 64
      → sum_entries limine_memmap_usable total usable es
        ≡ (total + lengths es, usable + usable_lengths es)
  unfolding sum_entries
  sum_entries_lem total usable [] f g =
      let a : total + 0 ≡ total = omega arith in
      let b : usable + 0 ≡ usable = omega arith in rw (a, b) refl
  sum_entries_lem total usable (e ∷ es) f g =
      let more = if e.type == limine_memmap_usable then e.length else 0 in
      let e1 : word (total + e.length) ≡ total + e.length = omega (arith, f) in
      let e2 : (if e.type == limine_memmap_usable then word (usable + e.length) else usable)
          ≡ usable + more =
        ground (arith, g) in
      let a : total + (e.length + lengths es) ≡ total + e.length + lengths es = omega arith in
      let b : usable + (more + usable_lengths es) ≡ usable + more + usable_lengths es =
        omega arith in
      rw (e1, e2, a, b)
        (sum_entries_lem (total + e.length) (usable + more) es (omega (arith, f))
          (omega (arith, g)))

  first_usable_lem :
      (before : List MemmapEntry) (e : MemmapEntry) (after : List MemmapEntry)
      → NoneUsable before
      → e.type ≡ limine_memmap_usable
      → first_usable limine_memmap_usable (before ++ e ∷ after) ≡ (e.base, e.length)
  unfolding first_usable
  first_usable_lem [] e after others usable =
      let hit : (e.type == limine_memmap_usable) ≡ true = ground (arith, usable) in rw hit refl
  first_usable_lem (b ∷ before) e after others usable =
      let miss : (b.type == limine_memmap_usable) ≡ false = ground (arith, others.0) in
      rw miss (first_usable_lem before e after (others.1) usable)

  -- If the lengths of the memory map add up below 2 ^ 64, and its first usable region lies above
  -- address 0 and below the end of the address space once it is mapped, then `pmm_initialize`
  -- returns, with the sums of all lengths and of the usable ones, and an allocator over exactly
  -- that region which is sound with no block out.
  pub pmm_initialize-IsSound :
      (before : List MemmapEntry) (e : MemmapEntry) (after : List MemmapEntry)
      (physical_base kernel_size hhdm_offset : ℕ) (s : Pmm)
      → NoneUsable before
      → e.type ≡ limine_memmap_usable
      → lengths (before ++ e ∷ after) < 2 ^ 64
      → usable_lengths (before ++ e ∷ after) < 2 ^ 64
      → 0 < e.base + hhdm_offset
      → e.base + hhdm_offset + e.length < 2 ^ 64
      → (s' : Pmm) × (pmm_initialize limine_memmap_usable
            (before ++ e ∷ after)
            physical_base
            kernel_size
            hhdm_offset
            s
          ≡ some s')
        × IsSound (e.base + hhdm_offset) e.length (fresh s')
        × (s'.total_memory ≡ lengths (before ++ e ∷ after))
        × (s'.usable_memory ≡ usable_lengths (before ++ e ∷ after))
  unfolding pmm_initialize phys_to_virt with_allocator
  pmm_initialize-IsSound before e after physical_base kernel_size hhdm_offset s others usable total
        sum low fits =
      let region = first_usable_lem before e after others usable in
      let es = before ++ e ∷ after in
      let z : 0 + lengths es ≡ lengths es = omega arith in
      let z' : 0 + usable_lengths es ≡ usable_lengths es = omega arith in
      let sums : sum_entries limine_memmap_usable 0 0 es ≡ (lengths es, usable_lengths es) =
        rw (z, z') at (sum_entries_lem 0 0 es (omega (arith, total)) (omega (arith, sum))) in
      let mapped : word (e.base + hhdm_offset) ≡ e.base + hhdm_offset = omega (arith, fits) in
      let i = init-Leaves s.buddy_allocator (e.base + hhdm_offset) e.length low fits in
      let made =
        ap (λ p. init s.buddy_allocator (word (p.0 + hhdm_offset)) (p.1)) region
        ∙ ap (λ a. init s.buddy_allocator a e.length) mapped
        ∙ i.returned in
      (
        record {
          kernel_start = physical_base;
          kernel_end = round_to_page (word (physical_base + kernel_size));
          total_memory = lengths es;
          usable_memory = usable_lengths es;
          buddy_allocator = i.heap;
        },
        ap (with_allocator physical_base kernel_size (sum_entries limine_memmap_usable 0 0 es)) made
            ∙ ap (λ u. with_allocator physical_base kernel_size u (some i.heap)) sums,
        record { lists = i.lists_after; well = i.well; headed = tt },
        refl,
        refl,
      )

-- What `pmm_alloc` hands out is out.
pub pmm_alloc-IsSound :
    (start pool size : ℕ) (s : Pmm) (blocks : List (ℕ × ℕ))
    → IsSound start pool (record { heap = s.buddy_allocator; blocks = blocks })
    → (pmm_alloc size s).0 ≢ null
    → IsSound start pool (record {
      heap = (pmm_alloc size s).1.buddy_allocator;
      blocks = ((pmm_alloc size s).0, find_order size) ∷ blocks;
    })
unfolding pmm_alloc
pmm_alloc-IsSound start pool size s blocks sound got = alloc-IsSound size sound got

-- `pmm_free` of a block that is out returns, and the block is out no more.
pub pmm_free-IsSound :
    (start pool p k : ℕ) (s : Pmm) (before after : List (ℕ × ℕ))
    → IsSound start pool (record { heap = s.buddy_allocator; blocks = before ++ (p, k) ∷ after })
    → (s' : Pmm) × (pmm_free (pool / page_size + 1) p s ≡ some s')
      × IsSound start pool (record { heap = s'.buddy_allocator; blocks = before ++ after })
unfolding pmm_free
pmm_free-IsSound start pool p k s before after sound =
    let (h, returned, rest) = free-IsSound before after p k sound refl in
    (record s { buddy_allocator = h }, rw (pmm_free, returned) refl, rest)

-- An address that `pmm_alloc` hands out goes back by `pmm_free`, which returns within one step per
-- page of the pool for each list search, and the memory manager is sound with the blocks that were
-- out before.
pub pmm_alloc-pmm_free :
    (start pool size : ℕ) (s : Pmm) (blocks : List (ℕ × ℕ))
    → IsSound start pool (record { heap = s.buddy_allocator; blocks = blocks })
    → (pmm_alloc size s).0 ≢ null
    → (s' : Pmm) × (pmm_free (pool / page_size + 1) (pmm_alloc size s).0 (pmm_alloc size s).1
        ≡ some s')
      × IsSound start pool (record { heap = s'.buddy_allocator; blocks = blocks })
pmm_alloc-pmm_free start pool size s blocks sound got =
    pmm_free-IsSound start pool (pmm_alloc size s).0 (find_order size) (pmm_alloc size s).1 []
      blocks (pmm_alloc-IsSound start pool size s blocks sound got)
