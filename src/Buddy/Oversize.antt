-- ===== src/Buddy/Oversize.antt =====
-- Requests above the largest block of buddy.c.
use mirus.Base.{ℕ, ◌*◌, ◌^◌, ◌<◌, ◌≡◌, arith, ltb, if◌then◌else◌, inl, inr, ◌∙◌, sym, ap, ◌+◌, ◌-◌}
use mirus.Buddy.{Heap, max_order, page_size, find_order, allocate, allocate_from}
use mirus.Buddy.Cover.{block_bytes}
use mirus.Buddy.Order.{find_order-Fits, find_order-block_bytes, block_bytes_strict}

find_order_above : (size : ℕ) → block_bytes max_order < size → find_order size ≡ max_order
find_order_above size h =
    let f = find_order-Fits size in
    elim (f.enough) [
      | inl fits ↦ ground (arith, f.bounded, block_bytes_strict (find_order size) max_order)
      | inr top ↦ top
    ]

-- Only the order of a request counts.
allocate-find_order :
    (h : Heap) (a b : ℕ) → find_order a ≡ find_order b → allocate h a ≡ allocate h b
unfolding allocate
allocate-find_order h a b e =
    ap
      (λ order.
        if ltb max_order order then (0, h) else allocate_from order (max_order + 1 - order) order h)
      e

-- `buddy_allocator_allocate` never refuses a request for being too large: on any heap a request
-- above the largest block is served exactly as a request for the largest block is.
pub allocate_oversize :
    (h : Heap) (size : ℕ)
    → page_size * 2 ^ max_order < size
    → allocate h size ≡ allocate h (page_size * 2 ^ max_order)
allocate_oversize h size over =
    let top : find_order (page_size * 2 ^ max_order) ≡ max_order =
      unfold block_bytes in find_order-block_bytes max_order (omega arith) in
    let over' : block_bytes max_order < size = unfold block_bytes in over in
    allocate-find_order h size (page_size * 2 ^ max_order) (find_order_above size over' ∙ sym top)
