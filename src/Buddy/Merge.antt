-- ===== src/Buddy/Merge.antt =====
-- One merge of buddy.c's `buddy_allocator_free`: a block and its free buddy.
use mirus.Base.{
  ◌≢◌, ℕ, zero, suc, ◌+◌, ◌*◌, ◌^◌, ◌≤◌, ◌<◌, ◌≡◌, refl, true, false, List, [], ◌∷◌, arith, ◌⊎◌,
  inl, inr, ltb, ◌==◌, if◌then◌else◌, ==_iff, ap, ◌∙◌, has, erase, length, some,
}
use mirus.Base.Bits.{bit_xor-pow}
use native.Mathlib.Nat.{pow-suc, suc-add}
use mirus.Buddy.{
  BuddyBlock, Heap, max_order, null, word, update, free_list, set_size, not_found, found, scan,
  unlink, push_block, find_buddy, merge_loop,
}
use mirus.Buddy.Cover.{
  FreeLists, block_bytes, block_bytes-zero, block_bytes-suc, block_span, block_span_start,
  block_span-suc, page-le-block_bytes,
}
use mirus.Buddy.Valid.{held_not_free, Chain, IsWell, IsWell-write}
use mirus.Buddy.Order.{block_bytes_bound}
use mirus.Buddy.Unlink.{prev_outside, unlink_elsewhere, before, IsWell-unlink}

block_bytes-pow : (k : ℕ) → block_bytes k ≡ 2 ^ (k + 12)
block_bytes-pow zero = block_bytes-zero
block_bytes-pow (suc k) =
    rw (block_bytes-suc, suc-add, block_bytes-pow k) (omega (arith, pow-suc 2 (k + 12)))

-- The buddy of a block lies right behind it or right before it.
pub find_buddy_beside :
    (k p : ℕ)
    → (find_buddy p (block_bytes k) ≡ p + block_bytes k)
      ⊎ (find_buddy p (block_bytes k) + block_bytes k ≡ p)
unfolding find_buddy
find_buddy_beside k p = rw (block_bytes-pow k) (bit_xor-pow (k + 12) p)

pub length-erase-le : (b : ℕ) (qs : List ℕ) → length (erase b qs) ≤ length qs
length-erase-le b [] = omega arith
length-erase-le b (q ∷ qs) = ground (arith, length-erase-le b qs)

pub Chain-size :
    (k : ℕ) (m : ℕ → BuddyBlock) (p : ℕ) (qs : List ℕ)
    → Chain k m p qs
    → (x : ℕ) → has x qs ≡ true
    → (m x).size ≡ block_bytes k
Chain-size k m p [] c x y = absurd (ground arith)
Chain-size k m p (q ∷ qs) c x y = ground (arith, c.2, Chain-size k m (m q).next qs (c.3) x)

pub size-unlink :
    (h : Heap) (k prev b x : ℕ) → ((unlink h k prev b).memory x).size ≡ (h.memory x).size
unfolding unlink
size-unlink h k prev b x = ground arith

-- the lower of the addresses of two buddies
abbrev pub lower : ℕ → ℕ → ℕ
lower b p = if ltb b p then b else p

-- Two buddies make up the block of the next order at the lower of their addresses.
pub merged_span :
    (k p x : ℕ)
    → (let b = find_buddy p (block_bytes k) in
        block_span k p x + block_span k b x ≡ block_span (suc k) (lower b p) x)
merged_span k p x = elim (find_buddy_beside k p) [
  | inl above ↦
      let test : ltb (p + block_bytes k) p ≡ false = ground arith in
      rw (above, test) (omega (arith, block_span-suc k p x))
  | inr below ↦
      let b = find_buddy p (block_bytes k) in
      let test : ltb b p ≡ true = ground (arith, page-le-block_bytes k) in
      let whole : block_span (suc k) b x ≡ block_span k b x + block_span k p x =
        block_span-suc k b x ∙ ap (λ q. block_span k b x + block_span k q x) below in
      rw test (omega (arith, whole))
]

-- the heap behind a merge of the block at `p` with its buddy `b`, which stands behind `prev`
abbrev pub merge_at : Heap → (k p b prev : ℕ) → Heap
merge_at h k p b prev =
    let h1 = unlink h k prev b in set_size h1 (lower b p) (word ((h1.memory (lower b p)).size * 2))

module _ (fuel n k p : ℕ) (h : Heap) (header : (h.memory p).size ≡ block_bytes k) where
  pub merge_loop_missing :
      scan fuel h.memory (find_buddy p (block_bytes k)) null (free_list h k) ≡ not_found
      → merge_loop fuel (suc n) k p h ≡ some (push_block h k p)
  unfolding merge_loop
  merge_loop_missing e = rw (merge_loop, header, e)

  pub merge_loop_found :
      (prev : ℕ)
      → scan fuel h.memory (find_buddy p (block_bytes k)) null (free_list h k) ≡ found prev
      → merge_loop fuel (suc n) k p h ≡ (
          let b = find_buddy p (block_bytes k) in
          merge_loop fuel n (k + 1) (lower b p) (merge_at h k p b prev))
  unfolding merge_loop
  merge_loop_found prev e = rw (merge_loop, header, e, header)

-- After a merge the double block is held, under a header that says so.
module _ {lo hi : ℕ} {h : Heap} {lists : FreeLists} {held : ℕ → ℕ} (w : IsWell lo hi h lists held)
    (k p b : ℕ) (i : k ≤ max_order) (header : (h.memory p).size ≡ block_bytes k)
    (p_held : 0 < held p) (y : has b (lists k) ≡ true) where
  merged_size : (prev : ℕ) → ((unlink h k prev b).memory (lower b p)).size ≡ block_bytes k
  merged_size prev =
      let b_size = Chain-size k h.memory (free_list h k) (lists k) (w.chains k i) b y in
      ground (arith, b_size, size-unlink h k prev b p, size-unlink h k prev b b)

  pub merge-IsWell :
      IsWell lo hi
        (merge_at h k p b (before b null (lists k)))
        (update lists k (erase b (lists k)))
        (λ x. held x + block_span k b x)
  merge-IsWell =
      let prev = before b null (lists k) in
      IsWell-write (IsWell-unlink w k b i y) (merge_at h k p b prev).memory
        (λ x z. ground (arith, block_span_start k b))

  -- Nothing that stays held is written: only free blocks and the block itself.
  pub merge_untouched :
      (x : ℕ)
      → 0 < held x
      → x ≢ p
      → (merge_at h k p b (before b null (lists k))).memory x ≡ h.memory x
  merge_untouched x z n =
      let prev = before b null (lists k) in
      let off_list = held_not_free w x k i z in
      let not_b : x ≢ b = ground arith in
      let not_prev = prev_outside b x (lists k) y off_list in
      ground (arith, unlink_elsewhere h k prev b x not_prev)

  pub merge_header :
      (prev : ℕ) → ((merge_at h k p b prev).memory (lower b p)).size ≡ block_bytes (suc k)
  merge_header prev =
      let self : (lower b p == lower b p) ≡ true = (==_iff (lower b p) (lower b p)).1 refl in
      rw (self, merged_size prev) (omega (arith, block_bytes-suc k, block_bytes_bound k i))
