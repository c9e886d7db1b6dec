-- ===== src/Pmm/Tests.antt =====
-- A memory map of three regions, of which the second is the first usable one (type 0).
use mirus.Base.{◌≡◌, refl, [], ◌∷◌, some, none, Option, arith}
use mirus.Buddy.{Heap, init, allocate}
use mirus.Buddy.Life.{IsSound, Reach-IsSound, here}
use mirus.Pmm.{MemmapEntry, Pmm, round_to_page, pmm_initialize, pmm_alloc, pmm_free}
use mirus.Pmm.Start.{fresh, pmm_initialize-IsSound, pmm_alloc-pmm_free}

abbrev reserved : MemmapEntry
reserved = record { base = 0; length = 0x1000; type = 1 }

abbrev usable : MemmapEntry
usable = record { base = 0x2000; length = 0x3010; type = 0 }

abbrev framebuffer : MemmapEntry
framebuffer = record { base = 0x800000; length = 0x5000; type = 7 }

abbrev before_start : Pmm
before_start = record {
  kernel_start = 0;
  kernel_end = 0;
  total_memory = 0;
  usable_memory = 0;
  buddy_allocator = record {
    memory = λ a. record { next = 0; size = 0 };
    allocator = record { start_address = 0; pool_size = 0; free_lists = λ order. 0 };
  };
}

rounds_up : round_to_page 0x100001 ≡ 0x101000
unfolding round_to_page
rounds_up = refl

pmm_initialize-IsSound_example :
    (s' : Pmm) × (pmm_initialize 0
        (reserved ∷ usable ∷ framebuffer ∷ [])
        0x100000
        0x20001
        0x10000
        before_start
      ≡ some s')
    × IsSound 0x12000 0x3010 (fresh s')
    × (s'.total_memory ≡ 0x9010)
    × (s'.usable_memory ≡ 0x3010)
pmm_initialize-IsSound_example =
    pmm_initialize-IsSound 0 (reserved ∷ []) usable (framebuffer ∷ []) 0x100000 0x20001 0x10000
      before_start (omega arith, tt) refl (omega arith) (omega arith) (omega arith) (omega arith)

abbrev or_empty : Option Heap → Heap
or_empty none = before_start.buddy_allocator
or_empty (some h) = h

abbrev ready : Heap
unfolding init
ready = or_empty (init before_start.buddy_allocator 0x2000 0x3010)

abbrev started : Pmm
started = record before_start { buddy_allocator = ready }

started-IsSound : IsSound 0x2000 0x3010 (fresh started)
unfolding init
started-IsSound =
    Reach-IsSound 0x2000 0x3010 before_start.buddy_allocator ready (omega arith) (omega arith) refl
      here

pmm_alloc-pmm_free_example :
    (s' : Pmm) × (pmm_free 4 (pmm_alloc 100 started).0 (pmm_alloc 100 started).1 ≡ some s')
    × IsSound 0x2000 0x3010 (record { heap = s'.buddy_allocator; blocks = [] })
unfolding pmm_alloc init allocate
pmm_alloc-pmm_free_example =
    pmm_alloc-pmm_free 0x2000 0x3010 100 started [] started-IsSound (λ e. cc e)
