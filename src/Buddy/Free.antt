-- ===== src/Buddy/Free.antt =====
-- `buddy_allocator_free` of buddy.c: the merges, and the heap that it leaves.
use mirus.Base.{
  ◌≢◌, ℕ, zero, suc, ◌+◌, ◌-◌, ◌≤◌, ◌<◌, ◌≡◌, refl, ◌∷◌, arith, inl, inr, ◌==◌, ==_iff, ◌∙◌,
  Bool-cases, has, erase, length, Option, some,
}
use native.Mathlib.Numerals.{add-one}
use mirus.Buddy.{Heap, max_order, null, update, free_list, push_block, find_buddy, merge_loop, free}
use mirus.Buddy.Cover.{FreeLists, block_bytes, block_span, block_span_start}
use mirus.Buddy.Valid.{IsWell, Leaves, IsWell-push}
use mirus.Buddy.Order.{find_order-block_bytes}
use mirus.Buddy.Unlink.{before, scan-before}
use mirus.Buddy.Merge.{
  lower, merged_span, merge_loop_missing, merge_loop_found, merge-IsWell, merge_untouched,
  merge_header, length-erase-le,
}

-- Every free list is shorter than the fuel of a search.
abbrev pub Short : ℕ → FreeLists → Type 0
Short fuel lists = (j : ℕ) → j ≤ max_order → length (lists j) < fuel

Short-update :
    (fuel : ℕ) (lists : FreeLists) (k b : ℕ)
    → Short fuel lists
    → Short fuel (update lists k (erase b (lists k)))
Short-update fuel lists k b short j i = elim (Bool-cases (j == k)) [
  | inl same ↦
      let here : j ≡ k = (==_iff j k).0 same in
      rw same (ground (arith, short j i, length-erase-le b (lists k), here))
  | inr other ↦ rw other (short j i)
]

push_block-elsewhere : (h : Heap) (k p x : ℕ) → x ≢ p → (push_block h k p).memory x ≡ h.memory x
unfolding push_block
push_block-elsewhere h k p x n = ground arith

push-Leaves :
    (k p : ℕ) {lo hi : ℕ} {h : Heap} {lists : FreeLists} {held held' : ℕ → ℕ} {r : Option Heap}
    (w : IsWell lo hi h lists held)
    → k ≤ max_order
    → (h.memory p).size ≡ block_bytes k
    → ((x : ℕ) → held x ≡ held' x + block_span k p x)
    → r ≡ some (push_block h k p)
    → Leaves lo hi held' h.memory r
push-Leaves k p {h} {lists} w i header loose e = record {
  heap = push_block h k p;
  lists_after = update lists k (p ∷ lists k);
  returned = e;
  untouched = λ x y.
      push_block-elsewhere h k p x (ground (arith, w.tiles x, loose x, block_span_start k p));
  well = IsWell-push w k p i header loose;
}

merge_loop-Leaves :
    (fuel n k p : ℕ) {lo hi : ℕ} {h : Heap} {lists : FreeLists} {held held' : ℕ → ℕ}
    (w : IsWell lo hi h lists held)
    → k + n ≡ max_order
    → Short fuel lists
    → (h.memory p).size ≡ block_bytes k
    → ((x : ℕ) → held x ≡ held' x + block_span k p x)
    → Leaves lo hi held' h.memory (merge_loop fuel n k p h)
merge_loop-Leaves fuel zero k p {h} w e short header loose =
    push-Leaves k p w (omega arith) header loose (unfold merge_loop in refl)
merge_loop-Leaves fuel (suc n) k p {h} {lists} {held} {held'} w e short header loose =
    let i : k ≤ max_order = omega arith in
    let b = find_buddy p (block_bytes k) in
    let prev = before b null (lists k) in
    let walk =
      scan-before fuel k b h.memory null (free_list h k) (lists k) (w.chains k i) (short k i) in
    elim (Bool-cases (has b (lists k))) [
      | inl y_b ↦
          let p_held : 0 < held p = omega (arith, loose p, block_span_start k p) in
          let r =
            merge_loop-Leaves fuel n (k + 1) (lower b p) {held' = held'}
              (merge-IsWell w k p b i header p_held y_b) (omega arith)
              (Short-update fuel lists k b short)
              (rw add-one (merge_header w k p b i header p_held y_b prev))
              (λ x. rw add-one (omega (arith, loose x, merged_span k p x))) in
          record {
            heap = r.heap;
            lists_after = r.lists_after;
            untouched = λ x y.
                let still : 0 < held x = omega (arith, loose x) in
                let not_p : x ≢ p = ground (arith, w.tiles x, loose x, block_span_start k p) in
                r.untouched x y ∙ merge_untouched w k p b i header p_held y_b x still not_p;
            returned = merge_loop_found fuel n k p h header prev (rw y_b at walk) ∙ r.returned;
            well = r.well;
          }
      | inr out ↦
          push-Leaves k p w i header loose (merge_loop_missing fuel n k p h header (rw out at walk))
    ]

module _ {lo hi : ℕ} {h : Heap} {lists : FreeLists} {held held' : ℕ → ℕ}
    (w : IsWell lo hi h lists held) where
  pub free-Leaves :
      (fuel k p : ℕ)
      → k ≤ max_order
      → Short fuel lists
      → (h.memory p).size ≡ block_bytes k
      → ((x : ℕ) → held x ≡ held' x + block_span k p x)
      → Leaves lo hi held' h.memory (free fuel h p)
  unfolding free
  free-Leaves fuel k p i short header loose =
      rw (header, find_order-block_bytes k i)
        (merge_loop-Leaves fuel (max_order - k) k p w (omega arith) short header loose)
