-- ===== src/Buddy/Debug/Totals.antt =====
-- What `buddy_allocator_debug_state` of kernel/memory/buddy.c reports of a sound allocator.
use mirus.Base.{
  ℕ, zero, suc, ◌+◌, ◌-◌, ◌*◌, ◌/◌, ◌%◌, ◌^◌, ◌≤◌, ◌<◌, ◌≡◌, refl, sym, false, some, List, [], ◌∷◌,
  ◌==◌, arith, length, inl, inr, Bool-cases,
}
use mathlib.Core.Path.{subst}
use mirus.Buddy.{BuddyBlock, Heap, page_size, max_order, null, word, free_list}
use mirus.Buddy.Cover.{
  FreeLists, block_bytes, block_span, span, list_cover, cover, free_cover, page-le-block_bytes,
}
use mirus.Buddy.Valid.{Chain}
use mirus.Buddy.Free.{Short}
use mirus.Buddy.Count.{
  sum_below, sum_below-span, sum_below-add, sum_below-list_cover, sum_below-zero, sum_below-cong,
  IsWell-Short,
}
use mirus.Buddy.Life.{Block, held_by, Kernel, IsSound}
use mirus.Buddy.Debug.{
  OrderState, DebugState, count_blocks, print_blocks, sum_blocks, order_state, order_states,
  sum_orders, debug_state,
}

-- the bytes on the free lists of the orders below `n`, and in the blocks that are out
abbrev pub free_bytes : ℕ → FreeLists → ℕ
free_bytes zero lists = 0
free_bytes (suc n) lists = free_bytes n lists + length (lists n) * block_bytes n

abbrev pub held_bytes : List Block → ℕ
held_bytes [] = 0
held_bytes ((p, k) ∷ bs) = block_bytes k + held_bytes bs

-- The report of one order, and those of the orders from `order` on.
abbrev pub report : FreeLists → ℕ → OrderState
report lists order = record {
  order = order;
  block_size = block_bytes order;
  free_blocks = length (lists order);
  total_free_memory = length (lists order) * block_bytes order;
  blocks = lists order;
}

abbrev pub reports : (rounds order : ℕ) → FreeLists → List OrderState
reports zero order lists = []
reports (suc rounds) order lists = report lists order ∷ reports rounds (order + 1) lists

module _ (memory : ℕ → BuddyBlock) (k : ℕ) where
  count_blocks_lem :
      (fuel size count total p : ℕ) (ps : List ℕ)
      → Chain k memory p ps
      → length ps < fuel
      → total + length ps * size < 2 ^ 64
      → count_blocks fuel size count total p memory
        ≡ some (count + length ps, total + length ps * size)
  unfolding count_blocks
  count_blocks_lem zero size count total p ps c e f = absurd (omega (arith, e))
  count_blocks_lem (suc fuel) size count total p [] c e f =
      let a : count + 0 ≡ count = omega arith in
      let b : total + 0 * size ≡ total = omega arith in rw (c, a, b) refl
  count_blocks_lem (suc fuel) size count total p (q ∷ qs) c e f =
      let more : (q == null) ≡ false = ground (arith, c.1) in
      let product : suc (length qs) * size ≡ size + length qs * size = grind arith in
      let fits : word (total + size) ≡ total + size = omega (arith, f, product) in
      let a : count + suc (length qs) ≡ count + 1 + length qs = omega arith in
      let b : total + suc (length qs) * size ≡ total + size + length qs * size =
        omega (arith, product) in
      rw (c.0, more, fits, a, b)
        (count_blocks_lem fuel size (count + 1) (total + size) (memory q).next qs (c.3)
          (omega (arith, e)) (omega (arith, f, product)))

  sum_blocks_lem :
      (fuel size total p : ℕ) (ps : List ℕ)
      → Chain k memory p ps
      → length ps < fuel
      → total + length ps * size < 2 ^ 64
      → sum_blocks fuel size total p memory ≡ some (total + length ps * size)
  unfolding sum_blocks
  sum_blocks_lem zero size total p ps c e f = absurd (omega (arith, e))
  sum_blocks_lem (suc fuel) size total p [] c e f =
      let b : total + 0 * size ≡ total = omega arith in rw (c, b) refl
  sum_blocks_lem (suc fuel) size total p (q ∷ qs) c e f =
      let more : (q == null) ≡ false = ground (arith, c.1) in
      let product : suc (length qs) * size ≡ size + length qs * size = grind arith in
      let fits : word (total + size) ≡ total + size = omega (arith, f, product) in
      let b : total + suc (length qs) * size ≡ total + size + length qs * size =
        omega (arith, product) in
      rw (c.0, more, fits, b)
        (sum_blocks_lem fuel size (total + size) (memory q).next qs (c.3) (omega (arith, e))
          (omega (arith, f, product)))

  print_blocks_lem :
      (fuel p : ℕ) (ps : List ℕ)
      → Chain k memory p ps
      → length ps < fuel
      → print_blocks fuel p memory ≡ some ps
  unfolding print_blocks
  print_blocks_lem zero p ps c e = absurd (omega (arith, e))
  print_blocks_lem (suc fuel) p [] c e = rw (print_blocks, c) refl
  print_blocks_lem (suc fuel) p (q ∷ qs) c e =
      let more : (q == null) ≡ false = ground (arith, c.1) in
      subst (λ x. print_blocks (suc fuel) x memory ≡ some (q ∷ qs)) (sym (c.0))
        (rw (print_blocks, more, print_blocks_lem fuel (memory q).next qs (c.3) (omega (arith, e)))
          refl)

-- The sums of counts over all addresses, in bytes.
sum_below-cover :
    (top n : ℕ) (lists : FreeLists)
    → ((j x : ℕ) → j < n → 0 < list_cover j (lists j) x → x < top)
    → sum_below top (cover n lists) ≡ free_bytes n lists
sum_below-cover top zero lists h = sum_below-zero top
sum_below-cover top (suc n) lists h = omega (
  arith,
  sum_below-add top (cover n lists) (list_cover n (lists n)),
  sum_below-cover top n lists (λ j x i y. h j x (omega arith) y),
  sum_below-list_cover top n (lists n) (λ x y. h n x (omega arith) y),
)

sum_below-held_by :
    (top : ℕ) (bs : List Block)
    → ((x : ℕ) → 0 < held_by bs x → x < top)
    → sum_below top (held_by bs) ≡ held_bytes bs
sum_below-held_by top [] h = sum_below-zero top
sum_below-held_by top ((p, k) ∷ bs) h =
    let last : p + block_bytes k ≤ top =
      ground (arith, page-le-block_bytes k, h (p + (block_bytes k - 1))) in
    omega (
      arith,
      sum_below-add top (block_span k p) (held_by bs),
      sum_below-span top p (p + block_bytes k) (omega arith),
      sum_below-held_by top bs (λ x y. h x (omega arith)),
    )

free_bytes-part :
    (n j : ℕ) (lists : FreeLists) → j < n → length (lists j) * block_bytes j ≤ free_bytes n lists
free_bytes-part zero j lists h = absurd (omega arith)
free_bytes-part (suc n) j lists h = elim (Bool-cases (j == n)) [
  | inl same ↦ let e : j ≡ n = ground arith in rw e (omega arith)
  | inr other ↦ omega (arith, free_bytes-part n j lists (ground arith))
]

list_cover-le-cover :
    (n j : ℕ) (lists : FreeLists) (x : ℕ) → j < n → list_cover j (lists j) x ≤ cover n lists x
list_cover-le-cover zero j lists x h = absurd (omega arith)
list_cover-le-cover (suc n) j lists x h = elim (Bool-cases (j == n)) [
  | inl same ↦ let e : j ≡ n = ground arith in rw e (omega arith)
  | inr other ↦ omega (arith, list_cover-le-cover n j lists x (ground arith))
]

free_bytes-below : (n j : ℕ) (lists : FreeLists) → j ≤ n → free_bytes j lists ≤ free_bytes n lists
free_bytes-below zero j lists h = let e : j ≡ 0 = omega arith in rw e (omega arith)
free_bytes-below (suc n) j lists h = elim (Bool-cases (j == suc n)) [
  | inl same ↦ let e : j ≡ suc n = ground arith in rw e (omega arith)
  | inr other ↦ omega (arith, free_bytes-below n j lists (ground arith))
]

module _ (fuel : ℕ) (h : Heap) (lists : FreeLists)
    (chains : (order : ℕ)
      → order ≤ max_order
      → Chain order h.memory (free_list h order) (lists order))
    (short : Short fuel lists) (small : free_bytes (max_order + 1) lists < 2 ^ 64) where
  order_state_lem : (j : ℕ) → j ≤ max_order → order_state fuel j h ≡ some (report lists j)
  unfolding order_state block_bytes
  order_state_lem j i =
      let part = free_bytes-part (max_order + 1) j lists (omega arith) in
      let counted =
        count_blocks_lem h.memory j fuel (block_bytes j) 0 0 (free_list h j) (lists j) (chains j i)
          (short j i) (omega (arith, part, small)) in
      let printed =
        print_blocks_lem h.memory j fuel (free_list h j) (lists j) (chains j i) (short j i) in
      let a : 0 + length (lists j) ≡ length (lists j) = omega arith in
      let b : 0 + length (lists j) * block_bytes j ≡ length (lists j) * block_bytes j =
        omega arith in
      rw (order_state, counted, printed, a, b) refl

  order_states_lem :
      (rounds j : ℕ)
      → j + rounds ≡ max_order + 1
      → order_states fuel rounds j h ≡ some (reports rounds j lists)
  unfolding order_states
  order_states_lem zero j e = refl
  order_states_lem (suc rounds) j e =
      rw
        (
          order_states,
          order_state_lem j (omega arith),
          order_states_lem rounds (j + 1) (omega arith),
        )
        refl

  sum_orders_lem :
      (rounds j : ℕ)
      → j + rounds ≡ max_order + 1
      → sum_orders fuel rounds j (free_bytes j lists) h ≡ some (free_bytes (max_order + 1) lists)
  unfolding sum_orders block_bytes
  sum_orders_lem zero j e = let f : j ≡ max_order + 1 = omega arith in rw f refl
  sum_orders_lem (suc rounds) j e =
      let part = free_bytes-below (max_order + 1) (suc j) lists (omega arith) in
      let next : j + 1 ≡ suc j = omega arith in
      let summed =
        sum_blocks_lem h.memory j fuel (block_bytes j) (free_bytes j lists) (free_list h j)
          (lists j) (chains j (omega arith)) (short j (omega arith)) (omega (arith, part, small)) in
      rw (sum_orders, summed, next) (sum_orders_lem rounds (suc j) (omega arith))

-- Free blocks and blocks that are out, if they tile a range, have its size together.
tiled_bytes :
    (n start top : ℕ) (lists : FreeLists) (bs : List Block)
    → start ≤ top
    → ((x : ℕ) → cover n lists x + held_by bs x ≡ span start top x)
    → free_bytes n lists + held_bytes bs ≡ top - start
tiled_bytes n start top lists bs le tiles = omega (
  arith,
  sum_below-cover top n lists
      (λ j x i y. ground (arith, tiles x, list_cover-le-cover n j lists x i)),
  sum_below-held_by top bs (λ x y. ground (arith, tiles x)),
  sum_below-add top (cover n lists) (held_by bs),
  sum_below-cong top (λ x. cover n lists x + held_by bs x) (span start top) tiles,
  sum_below-span top start top le,
)

-- In a sound kernel the debug state is found within one step per page of the pool for each list.
pub debug_state_returns :
    (start pool : ℕ) (s : Kernel) (sound : IsSound start pool s)
    → (d : DebugState) × (debug_state (pool / page_size + 1) s.heap ≡ some d)
      × (d.orders ≡ reports (max_order + 1) 0 sound.lists)
      × (d.total_free + held_bytes s.blocks ≡ pool / page_size * page_size)
      × (d.total_allocated ≡ word (s.heap.allocator.pool_size + 2 ^ 64 - d.total_free))
unfolding debug_state
debug_state_returns start pool s sound =
    let w = sound.well in
    let lists = sound.lists in
    let pages = pool / page_size in
    let top = start + pages * page_size in
    let free = free_bytes (max_order + 1) lists in
    let both : free + held_bytes s.blocks ≡ pages * page_size = omega (
      arith,
      tiled_bytes (max_order + 1) start top lists s.blocks (omega arith)
          (unfold free_cover in w.tiles),
    ) in
    let small : free < 2 ^ 64 = omega (arith, both, w.low, w.high) in
    let short = IsWell-Short w pages (omega arith) (omega arith) in
    let states =
      order_states_lem (pages + 1) s.heap lists w.chains short small (max_order + 1) 0
        (omega arith) in
    let summed =
      sum_orders_lem (pages + 1) s.heap lists w.chains short small (max_order + 1) 0
        (omega arith) in
    (
      record {
        total_memory_size = s.heap.allocator.pool_size;
        total_pages = s.heap.allocator.pool_size / page_size;
        orders = reports (max_order + 1) 0 lists;
        total_free = free;
        total_allocated = word (s.heap.allocator.pool_size + 2 ^ 64 - free);
      },
      rw (debug_state, states, summed) refl,
      refl,
      both,
      refl,
    )

-- In a sound kernel whose allocator still records the size of its pool, the debug state is found
-- within one step per page of the pool for each list: for every order it reports exactly the
-- blocks of the free list; the free bytes and those of the blocks that are out add up to the whole
-- pages of the pool, and what it calls allocated is the blocks that are out and the rest of the
-- pool below a page.
pub debug_state_lem :
    (start pool : ℕ) (s : Kernel) (sound : IsSound start pool s)
    → s.heap.allocator.pool_size ≡ pool
    → (d : DebugState) × (debug_state (pool / page_size + 1) s.heap ≡ some d)
      × (d.orders ≡ reports (max_order + 1) 0 sound.lists)
      × (d.total_free + held_bytes s.blocks ≡ pool / page_size * page_size)
      × (d.total_allocated ≡ held_bytes s.blocks + pool % page_size)
debug_state_lem start pool s sound e =
    let w = sound.well in
    let (d, returned, orders, both, rest) = debug_state_returns start pool s sound in
    (d, returned, orders, both, omega (arith, e, both, rest, w.high, w.low))
