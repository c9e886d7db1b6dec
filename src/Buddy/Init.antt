-- ===== src/Buddy/Init.antt =====
-- `buddy_allocator_init` of buddy.c: the pool cut into blocks, largest first.
use mirus.Base.{
  ℕ, zero, suc, ◌+◌, ◌-◌, ◌*◌, ◌/◌, ◌^◌, ◌≤◌, ◌<◌, ◌≡◌, refl, false, [], ◌∷◌, arith, inl, inr, ltb,
  sym, ◌∙◌, Bool-cases, Option, some,
}
use mirus.Buddy.{
  Heap, max_order, page_size, word, update, set_size, push_block, fit_order, init_loop, init,
}
use mirus.Buddy.Cover.{
  FreeLists, free_cover-nil, block_bytes, block_bytes-zero, block_bytes-suc, block_span,
  block_span_start, page-le-block_bytes,
}
use mirus.Buddy.Valid.{IsWell, Leaves, IsWell-push, IsWell-write}

-- What the inner loop finds for a remainder of a page or more.
record Fitted (top remaining : ℕ) (r : Option (ℕ × ℕ)) : Type 0 where
  order : ℕ
  returned : r ≡ some (order, block_bytes order)
  bounded : order ≤ top
  fits : block_bytes order ≤ remaining

fit_order-Fitted :
    (top remaining : ℕ)
    → page_size ≤ remaining
    → Fitted top remaining (fit_order top (block_bytes top) remaining)
unfolding fit_order
fit_order-Fitted zero remaining h =
    let test : ltb remaining (block_bytes 0) ≡ false = rw block_bytes-zero (ground arith) in
    record {
      order = 0;
      returned = rw test;
      bounded = omega arith;
      fits = omega (arith, block_bytes-zero);
    }
fit_order-Fitted (suc top) remaining h = elim (Bool-cases (ltb remaining (block_bytes (suc top)))) [
  | inl small ↦
      let half : block_bytes (suc top) / 2 ≡ block_bytes top = omega (arith, block_bytes-suc top) in
      let r = fit_order-Fitted top remaining h in
      record {
        order = r.order;
        returned = rw (small, half) (r.returned);
        bounded = omega (arith, r.bounded);
        fits = r.fits;
      }
  | inr large ↦ record {
    order = suc top;
    returned = rw large;
    bounded = omega arith;
    fits = ground arith;
  }
]

-- A block behind the pool joins it as held memory.
IsWell-grow :
    {lo hi : ℕ} {h : Heap} {lists : FreeLists} (k : ℕ)
    → IsWell lo hi h lists (λ _. 0)
    → lo ≤ hi
    → hi + block_bytes k ≤ 2 ^ 64
    → IsWell lo (hi + block_bytes k) h lists (λ x. 0 + block_span k hi x)
IsWell-grow k w le fits = record {
  chains = w.chains;
  tiles = λ x. ground (arith, w.tiles x);
  low = w.low;
  high = fits;
}

-- One round of the loop.
IsWell-add_block :
    {lo : ℕ} {h : Heap} {lists : FreeLists} (k hi : ℕ)
    → k ≤ max_order
    → IsWell lo hi h lists (λ _. 0)
    → lo ≤ hi
    → hi + block_bytes k ≤ 2 ^ 64
    → IsWell lo
        (hi + block_bytes k)
        (push_block (set_size h hi (block_bytes k)) k hi)
        (update lists k (hi ∷ lists k))
        (λ _. 0)
IsWell-add_block {h} k hi i w le fits =
    let h1 = set_size h hi (block_bytes k) in
    let w1 =
      IsWell-write (IsWell-grow k w le fits) h1.memory
        (λ x z. ground (arith, block_span_start k hi)) in
    IsWell-push w1 k hi {held' = λ _. 0} i (ground arith) (λ x. refl)

init_loop_step :
    (fuel remaining cur : ℕ) (h : Heap) (k size : ℕ)
    → ltb remaining page_size ≡ false
    → fit_order max_order (page_size * 2 ^ max_order) remaining ≡ some (k, size)
    → cur + size < 2 ^ 64
    → init_loop (suc fuel) remaining cur h
      ≡ init_loop fuel (remaining - size) (cur + size) (push_block (set_size h cur size) k cur)
unfolding init_loop
init_loop_step fuel remaining cur h k size more fit fits =
    let no_wrap : word (cur + size) ≡ cur + size = omega arith in rw (init_loop, more, fit, no_wrap)

-- Cutting off a block leaves the pages of the remainder where they were.
pages_kept :
    (k cur remaining : ℕ)
    → block_bytes k ≤ remaining
    → cur + block_bytes k + (remaining - block_bytes k) / page_size * page_size
      ≡ cur + remaining / page_size * page_size
unfolding block_bytes
pages_kept k cur remaining h = omega arith

init_loop-Leaves :
    (fuel remaining cur : ℕ) {lo : ℕ} {h : Heap} {lists : FreeLists}
    → IsWell lo cur h lists (λ _. 0)
    → lo ≤ cur
    → cur + remaining < 2 ^ 64
    → remaining / page_size < fuel
    → Leaves lo
        (cur + remaining / page_size * page_size)
        (λ _. 0)
        h.memory
        (init_loop fuel remaining cur h)
init_loop-Leaves zero remaining cur w le fits enough = absurd (omega arith)
init_loop-Leaves (suc fuel) remaining cur {lo} {h} {lists} w le fits enough =
    elim (Bool-cases (ltb remaining page_size)) [
      | inl done ↦
          let none_left : cur + remaining / page_size * page_size ≡ cur = ground arith in
          rw none_left (record {
            heap = h;
            lists_after = lists;
            returned = unfold init_loop in rw done;
            untouched = λ x y. refl;
            well = w;
          })
      | inr more ↦
          let f = fit_order-Fitted max_order remaining (ground arith) in
          let size = block_bytes f.order in
          let page = page-le-block_bytes f.order in
          let next = IsWell-add_block f.order cur f.bounded w le (omega (arith, f.fits)) in
          let r =
            init_loop-Leaves fuel (remaining - size) (cur + size) next (omega arith)
              (omega (arith, f.fits)) (omega (arith, f.fits)) in
          record {
            heap = r.heap;
            lists_after = r.lists_after;
            returned =
                init_loop_step fuel remaining cur h f.order size more
                  (unfold block_bytes in f.returned) (omega (arith, f.fits))
                ∙ r.returned;
            untouched = λ x y. absurd (omega arith);
            well = rw (sym (pages_kept f.order cur remaining f.fits)) (r.well);
          }
    ]

-- `buddy_allocator_init` over a pool that does not reach the end of the address space returns
-- with every whole page of it free, exactly once, and nothing else; a rest below a page is lost.
pub init-Leaves :
    (h : Heap) (start pool : ℕ)
    → 0 < start
    → start + pool < 2 ^ 64
    → Leaves start (start + pool / page_size * page_size) (λ _. 0) h.memory (init h start pool)
unfolding init
init-Leaves h start pool low fits =
    init_loop-Leaves (pool / page_size + 1) pool start {lists = λ _. []}
      (record {
        chains = λ j i. ground arith;
        tiles = λ x. ground (arith, free_cover-nil x);
        low = low;
        high = omega arith;
      })
      (omega arith) fits (omega arith)
