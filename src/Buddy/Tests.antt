-- ===== src/Buddy/Tests.antt =====
-- buddy.c on a pool of three pages, and its theorems there.
use mirus.Base.{ℕ, ◌+◌, ◌*◌, ◌^◌, ◌≡◌, refl, [], ◌∷◌, arith, ◌⊎◌, Option, none, some}
use mirus.Buddy.{
  Heap, max_order, page_size, find_order, find_buddy, allocate, free, init, free_list,
}
use mirus.Buddy.Cover.{block_bytes}
use mirus.Buddy.Valid.{Leaves}
use mirus.Buddy.Order.{Fits, find_order-Fits}
use mirus.Buddy.Allocate.{Served, Exhausted, allocate-Served}
use mirus.Buddy.Merge.{find_buddy_beside}
use mirus.Buddy.Init.{init-Leaves}
use mirus.Buddy.Debug.{DebugState, debug_state}
use mirus.Buddy.Debug.Totals.{held_bytes, reports, debug_state_lem}
use mirus.Buddy.Oversize.{allocate_oversize}
use mirus.Buddy.Life.{Kernel, Reach, here, next, alloc, IsSound, Reach-IsSound, free-IsSound}

abbrev empty_heap : Heap
empty_heap = record {
  memory = λ _. record { next = 0; size = 0 };
  allocator = record { start_address = 0; pool_size = 0; free_lists = λ _. 77 };
}

abbrev or_blank : Option Heap → Heap
or_blank none = empty_heap
or_blank (some h) = h

-- three pages and a bit from address 0x2000 on
abbrev ready : Heap
unfolding init
ready = or_blank (init empty_heap 0x2000 0x3010)

ready_lists : (free_list ready 0 ≡ 0x4000) × (free_list ready 1 ≡ 0x2000) × (free_list ready 2 ≡ 0)
unfolding init
ready_lists = (refl, refl, refl)

-- the first page comes from the list of single pages, the second from a split
abbrev once : ℕ × Heap
unfolding init allocate
once = allocate ready 100

abbrev twice : ℕ × Heap
unfolding init allocate
twice = allocate once.1 4096

addresses : (once.0 ≡ 0x4000) × (twice.0 ≡ 0x2000) × ((allocate twice.1 4097).0 ≡ 0)
unfolding init allocate
addresses = (refl, refl, refl)

-- the second page goes back, and its buddy at 0x3000 is free: the pair is whole again
merged : free_list (or_blank (free 9 twice.1 0x2000)) 1 ≡ 0x2000
unfolding init allocate free
merged = refl

abbrev fresh_kernel : Kernel
unfolding init
fresh_kernel = record { heap = ready; blocks = [] }

abbrev busy_kernel : Kernel
unfolding init allocate
busy_kernel = record { heap = once.1; blocks = (0x4000, 0) ∷ [] }

abbrev full_kernel : Kernel
unfolding init allocate
full_kernel = record { heap = twice.1; blocks = (0x2000, 0) ∷ (0x4000, 0) ∷ [] }

two_allocations : Reach 0x3010 fresh_kernel full_kernel
unfolding init allocate
two_allocations =
    next (next here (alloc fresh_kernel 100 (λ e. cc e))) (alloc busy_kernel 4096 (λ e. cc e))

fresh-IsSound : IsSound 0x2000 0x3010 fresh_kernel
unfolding init
fresh-IsSound = Reach-IsSound 0x2000 0x3010 empty_heap ready (omega arith) (omega arith) refl here

full-IsSound : IsSound 0x2000 0x3010 full_kernel
unfolding init allocate
full-IsSound =
    Reach-IsSound 0x2000 0x3010 empty_heap ready (omega arith) (omega arith) refl two_allocations

Reach-IsSound_example : IsSound 0x2000 0x3010 full_kernel
unfolding init allocate
Reach-IsSound_example =
    Reach-IsSound 0x2000 0x3010 empty_heap ready (omega arith) (omega arith) refl two_allocations

init-Leaves_example :
    Leaves 0x2000 0x5000 (λ _. 0) empty_heap.memory (init empty_heap 0x2000 0x3010)
init-Leaves_example = init-Leaves empty_heap 0x2000 0x3010 (omega arith) (omega arith)

allocate-Served_example :
    (Exhausted fresh-IsSound.lists (find_order 5000) × (allocate ready 5000 ≡ (0, ready)))
    ⊎ Served 0x2000 0x5000 (λ _. 0) ready.memory (find_order 5000) (allocate ready 5000)
unfolding init
allocate-Served_example = allocate-Served fresh-IsSound.well 5000

free-IsSound_example :
    (h : Heap) × (free 4 twice.1 0x4000 ≡ some h)
    × IsSound 0x2000 0x3010 (record { heap = h; blocks = (0x2000, 0) ∷ [] })
unfolding init allocate
free-IsSound_example = free-IsSound ((0x2000, 0) ∷ []) [] 0x4000 0 full-IsSound refl

find_order-Fits_example : Fits 20000 (find_order 20000)
find_order-Fits_example = find_order-Fits 20000

buddy_of_0x3000 :
    (find_buddy 0x3000 (block_bytes 0) ≡ 0x3000 + block_bytes 0)
    ⊎ (find_buddy 0x3000 (block_bytes 0) + block_bytes 0 ≡ 0x3000)
buddy_of_0x3000 = find_buddy_beside 0 0x3000

allocate_oversize_example : allocate ready 9000000 ≡ allocate ready (page_size * 2 ^ max_order)
unfolding init
allocate_oversize_example = allocate_oversize ready 9000000 (omega arith)

-- one page is free, and the rest of a page at the end of the pool counts as allocated
debug_state_lem_example :
    (d : DebugState) × (debug_state 4 twice.1 ≡ some d)
    × (d.orders ≡ reports (max_order + 1) 0 full-IsSound.lists)
    × (d.total_free + held_bytes full_kernel.blocks ≡ 0x3000)
    × (d.total_allocated ≡ held_bytes full_kernel.blocks + 0x10)
unfolding init allocate
debug_state_lem_example = debug_state_lem 0x2000 0x3010 full_kernel full-IsSound refl
