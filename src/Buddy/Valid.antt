-- ===== src/Buddy/Valid.antt =====
-- The invariant of the allocator of buddy.c: its linked free lists, and how they tile the pool.
use mirus.Base.{
  some, Option, ℕ, ◌+◌, ◌^◌, ◌≤◌, ◌<◌, ◌≡◌, refl, ◌≢◌, true, false, List, [], ◌∷◌, arith, inl, inr,
  ◌==◌, has, Bool-cases, ==_iff, ap,
}
use mathlib.Core.Path.{fun_ext}
use mirus.Buddy.{max_order, null, BuddyBlock, Heap, update, free_list, take_head, push_block}
use mirus.Buddy.Cover.{
  FreeLists, block_bytes, span, block_span, block_span_start, free_cover, free_cover-update,
  free_cover-zero, list_cover,
}

-- From `p` the `next` pointers lead through the nodes `ps` of the order to `NULL`.
abbrev pub Chain : (order : ℕ) → (ℕ → BuddyBlock) → ℕ → List ℕ → Type 0
Chain order memory p [] = p ≡ null
Chain order memory p (q ∷ qs) =
    (p ≡ q)
    × (q ≢ null)
    × ((memory q).size ≡ block_bytes order)
    × Chain order memory (memory q).next qs

-- A chain survives any change that spares its own nodes.
pub Chain-frame :
    (k : ℕ) (m m' : ℕ → BuddyBlock) (p : ℕ) (ps : List ℕ)
    → Chain k m p ps
    → ((x : ℕ) → has x ps ≡ true → m' x ≡ m x)
    → Chain k m' p ps
Chain-frame k m m' p [] c same = c
Chain-frame k m m' p (q ∷ qs) (e, n, s, rest) same =
    let kept : m' q ≡ m q = same q (ground arith) in
    (
      e,
      n,
      rw kept s,
      rw kept (Chain-frame k m m' (m q).next qs rest (λ x i. same x (ground arith))),
    )

-- The lists are linked as they stand, and with the memory that `held` counts they tile the pool
-- from `lo` to `hi`: each of its addresses is held exactly once, and no other address at all.
pub record IsWell (lo hi : ℕ) (h : Heap) (lists : FreeLists) (held : ℕ → ℕ) : Type 0 where
  pub chains :
      (order : ℕ) → order ≤ max_order → Chain order h.memory (free_list h order) (lists order)
  pub tiles : (x : ℕ) → free_cover lists x + held x ≡ span lo hi x
  pub low : 0 < lo
  pub high : hi ≤ 2 ^ 64

module _ {lo hi : ℕ} {h : Heap} {lists : FreeLists} {held : ℕ → ℕ}
    (w : IsWell lo hi h lists held) where
  -- What is held is in the pool, and on no free list.
  pub held_in_pool : (x : ℕ) → 0 < held x → (lo ≤ x) × (x < hi)
  held_in_pool x p = ground (arith, w.tiles x)

  pub held_not_free : (x j : ℕ) → j ≤ max_order → 0 < held x → has x (lists j) ≡ false
  held_not_free x j i p = free_cover-zero lists x j i (ground (arith, w.tiles x))

  pub free_not_held : (x j : ℕ) → j ≤ max_order → has x (lists j) ≡ true → held x ≡ 0
  free_not_held x j i y = ground (arith, held_not_free x j i)

  -- Writing to held memory keeps the invariant.
  pub IsWell-write :
      (m : ℕ → BuddyBlock)
      → ((x : ℕ) → held x ≡ 0 → m x ≡ h.memory x)
      → IsWell lo hi (record h { memory = m }) lists held
  IsWell-write m same = record {
    chains = λ j i.
        Chain-frame j h.memory m (free_list h j) (lists j) (w.chains j i)
          (λ x y. same x (free_not_held x j i y));
    tiles = w.tiles;
    low = w.low;
    high = w.high;
  }

  -- Unlinking the first block of a list: it is held from then on.
  pub IsWell-take :
      (k p : ℕ) (ps : List ℕ)
      → k ≤ max_order
      → lists k ≡ p ∷ ps
      → IsWell lo hi (take_head h k).1 (update lists k ps) (λ x. held x + block_span k p x)
  unfolding take_head
  IsWell-take k p ps i e =
      let c : Chain k h.memory (free_list h k) (p ∷ ps) = rw e at (w.chains k i) in
      record {
        chains = λ j y. elim (Bool-cases (j == k)) [
          | inl same ↦ let s : j ≡ k = (==_iff j k).0 same in rw (same, s) (rw (c.0) (c.3))
          | inr other ↦ rw other (w.chains j y)
        ];
        tiles = λ x.
            let t = ap (λ l. list_cover k l x) e in
            ground (arith, t, free_cover-update lists k ps x i, w.tiles x);
        low = w.low;
        high = w.high;
      }

  -- Linking a held block to the front of its list frees it.
  pub IsWell-push :
      (k p : ℕ) {held' : ℕ → ℕ}
      → k ≤ max_order
      → (h.memory p).size ≡ block_bytes k
      → ((x : ℕ) → held x ≡ held' x + block_span k p x)
      → IsWell lo hi (push_block h k p) (update lists k (p ∷ lists k)) held'
  unfolding push_block
  IsWell-push k p i s e =
      let holds : 0 < held p = ground (arith, e p, block_span_start k p) in
      let low : 0 < p = ground (arith, held_in_pool p holds, w.low) in
      record {
        chains = λ j y.
            let rest =
              Chain-frame j h.memory (push_block h k p).memory (free_list h j) (lists j)
                (w.chains j y) (λ x f. ground (arith, held_not_free x j y)) in
            elim (Bool-cases (j == k)) [
              | inl same ↦
                  let here : j ≡ k = (==_iff j k).0 same in
                  let self : (p == p) ≡ true = (==_iff p p).1 refl in
                  rw (same, here) (refl, omega arith, rw self s, rw (self, ← here) rest)
              | inr other ↦ rw other rest
            ];
        tiles = λ x. ground (arith, e x, free_cover-update lists k (p ∷ lists k) x i, w.tiles x);
        low = w.low;
        high = w.high;
      }

-- The invariant reads the memory, the heads and the lists point by point.
pub IsWell-same :
    {lo hi : ℕ} {h h' : Heap} {lists lists' : FreeLists} {held held' : ℕ → ℕ}
    → IsWell lo hi h lists held
    → ((x : ℕ) → h'.memory x ≡ h.memory x)
    → ((j : ℕ) → free_list h' j ≡ free_list h j)
    → ((j : ℕ) → lists' j ≡ lists j)
    → ((x : ℕ) → held' x ≡ held x)
    → IsWell lo hi h' lists' held'
IsWell-same {h} {h'} {lists} w m f l g = record {
  chains = λ j i.
      rw (f j, l j)
        (Chain-frame j h.memory h'.memory (free_list h j) (lists j) (w.chains j i) (λ x y. m x));
  tiles = λ x. rw (fun_ext l, g x) (w.tiles x);
  low = w.low;
  high = w.high;
}

-- What a call leaves: a well-formed heap, with the memory `m` as it was wherever it is still held.
pub record Leaves (lo hi : ℕ) (held : ℕ → ℕ) (m : ℕ → BuddyBlock) (r : Option Heap) : Type 0 where
  pub heap : Heap
  pub lists_after : FreeLists
  pub returned : r ≡ some heap
  pub untouched : (x : ℕ) → 0 < held x → heap.memory x ≡ m x
  pub well : IsWell lo hi heap lists_after held
