-- ===== src/Buddy/Allocate.antt =====
-- `buddy_allocator_allocate` of buddy.c: what it returns, and the heap that it leaves.
use mirus.Base.{
  ℕ, zero, suc, ◌+◌, ◌-◌, ◌≤◌, ◌<◌, ◌≡◌, refl, ◌≢◌, true, false, List, [], ◌∷◌, arith, ◌⊎◌, inl,
  inr, ltb, ◌==◌, ==_iff, ap, ◌∙◌, Bool-cases,
}
use native.Mathlib.Numerals.{add-one}
use mirus.Buddy.{
  BuddyBlock, Heap, max_order, null, update, free_list, set_list, take_head, allocate_from,
  allocate, find_order,
}
use mirus.Buddy.Cover.{FreeLists, block_bytes, block_span}
use mirus.Buddy.Valid.{Chain, IsWell, IsWell-take}
use mirus.Buddy.Split.{split_down-Reached, head_of_list}
use mirus.Buddy.Order.{find_order-Fits}

-- The block `r.0` of the order was free, is held now, and carries its size in its
-- header; memory `m` that was held before is as it was.
pub record Served (lo hi : ℕ) (held : ℕ → ℕ) (m : ℕ → BuddyBlock) (order : ℕ) (r : ℕ × Heap)
    : Type 0 where
  pub not_null : r.0 ≢ null
  pub lists_after : FreeLists
  pub well : IsWell lo hi r.1 lists_after (λ x. held x + block_span order r.0 x)
  pub header : (r.1.memory r.0).size ≡ block_bytes order
  pub untouched : (x : ℕ) → 0 < held x → r.1.memory x ≡ m x

-- No free list from the order up has a block.
abbrev pub Exhausted : FreeLists → ℕ → Type 0
Exhausted lists order = (j : ℕ) → order ≤ j → j ≤ max_order → lists j ≡ []

List-cases : (l : List ℕ) → (l ≡ []) ⊎ ((p : ℕ) × (ps : List ℕ) × (l ≡ p ∷ ps))
List-cases [] = inl refl
List-cases (p ∷ ps) = inr (p, ps, refl)

module _ {lo hi : ℕ} {h : Heap} {lists : FreeLists} {held : ℕ → ℕ}
    (w : IsWell lo hi h lists held) where
  empty_list : (k : ℕ) → k ≤ max_order → lists k ≡ [] → (free_list h k == null) ≡ true
  empty_list k i e =
      let c : Chain k h.memory (free_list h k) [] = rw e at (w.chains k i) in
      (==_iff (free_list h k) null).1 c

  take_head-Served :
      (order p : ℕ) (ps : List ℕ)
      → order ≤ max_order
      → lists order ≡ p ∷ ps
      → Served lo hi held h.memory order (take_head h order)
  unfolding take_head
  take_head-Served order p ps i e =
      let c : Chain order h.memory (free_list h order) (p ∷ ps) = rw e at (w.chains order i) in
      let taken : IsWell lo hi (set_list h order (h.memory (free_list h order)).next)
          (update lists order ps) (λ x. held x + block_span order p x) =
        IsWell-take w order p ps i e in
      record {
        not_null = rw (c.0) (c.1);
        lists_after = update lists order ps;
        well = rw (c.0) (rw (c.0) at taken);
        header = rw (c.0) (c.2);
        untouched = λ x y. refl;
      }

none_below_next :
    (lists : FreeLists) (order i : ℕ)
    → ((j : ℕ) → order ≤ j → j < i → lists j ≡ [])
    → lists i ≡ []
    → (j : ℕ) → order ≤ j
    → j < suc i
    → lists j ≡ []
none_below_next lists order i below here j a b = elim (Bool-cases (j == i)) [
  | inl same ↦ rw ((==_iff j i).0 same) here
  | inr other ↦ below j a (ground arith)
]

allocate_from-Served :
    (order n i : ℕ) {lo hi : ℕ} {h : Heap} {lists : FreeLists} {held : ℕ → ℕ}
    (w : IsWell lo hi h lists held)
    → i + n ≡ max_order + 1
    → order ≤ i
    → ((j : ℕ) → order ≤ j → j < i → lists j ≡ [])
    → (Exhausted lists order × (allocate_from order n i h ≡ (0, h)))
      ⊎ Served lo hi held h.memory order (allocate_from order n i h)
unfolding allocate_from
allocate_from-Served order zero i w e le none_below =
    inl (λ j a b. none_below j a (omega arith), refl)
allocate_from-Served order (suc n) i {h} {lists} w e le none_below = elim (List-cases (lists i)) [
  | inl empty ↦
      rw (empty_list w i (omega arith) empty, add-one)
        (allocate_from-Served order n (suc i) w (omega arith) (omega arith)
          (none_below_next lists order i none_below empty))
  | inr (p, ps, full) ↦
      let (head, not_null) = head_of_list w i p ps (omega arith) full in
      let some_head : (free_list h i == null) ≡ false = ground arith in
      let top : order + (i - order) ≡ i = omega arith in
      let r = split_down-Reached order (i - order) p ps w (omega arith) (ap lists top ∙ full) in
      let s = take_head-Served r.well order p r.rest (omega arith) r.heads in
      rw some_head (
        inr (record {
          not_null = s.not_null;
          lists_after = s.lists_after;
          well = s.well;
          header = s.header;
          untouched = λ x y. s.untouched x y ∙ r.untouched x y;
        }))
]

-- A request for `size` bytes.
module _ {lo hi : ℕ} {h : Heap} {lists : FreeLists} {held : ℕ → ℕ}
    (w : IsWell lo hi h lists held) where
  -- On a well-formed heap `buddy_allocator_allocate` either returns 0, changes nothing and every
  -- free list from the order of the request up is empty, or it returns a block of that order that
  -- was free: the heap is well formed again with this block held besides what was held before.
  pub allocate-Served :
      (size : ℕ)
      → (Exhausted lists (find_order size) × (allocate h size ≡ (0, h)))
        ⊎ Served lo hi held h.memory (find_order size) (allocate h size)
  unfolding allocate
  allocate-Served size =
      let f = find_order-Fits size in
      let in_range : ltb max_order (find_order size) ≡ false = ground (arith, f.bounded) in
      rw in_range (
        allocate_from-Served (find_order size) (max_order + 1 - find_order size) (find_order size) w
          (omega (arith, f.bounded)) (omega arith) (λ j a b. absurd (omega arith)))
