-- ===== src/Buddy/Split.antt =====
-- `split_block` of buddy.c keeps the invariant: two halves tile the block.
use mirus.Base.{
  ℕ, zero, suc, ◌+◌, ◌-◌, ◌*◌, ◌^◌, ◌≤◌, ◌<◌, ◌≡◌, refl, true, false, List, ◌∷◌, arith, ◌==◌,
  ==_iff, ap, sym, ◌∙◌, ◌≢◌,
}
use mirus.Buddy.{
  page_size, word, Heap, max_order, null, update, free_list, set_size, take_head, push_block,
  split_block, split_down,
}
use mirus.Buddy.Cover.{
  FreeLists, block_bytes, block_span, block_span-suc, page-le-block_bytes, block_bytes-suc,
}
use mirus.Buddy.Valid.{
  Chain, IsWell, IsWell-take, IsWell-push, IsWell-write, IsWell-same, held_in_pool,
}

-- the lists after a split of the first block `p` of the order above `k`
abbrev pub split_lists : FreeLists → ℕ → ℕ → List ℕ → FreeLists
split_lists lists k p ps = update (update lists (suc k) ps) k (p ∷ (p + block_bytes k) ∷ lists k)

-- The heap with the headers of both halves written, before they are linked.
abbrev sized : Heap → (k p : ℕ) → Heap
sized h k p = set_size (set_size h p (block_bytes k)) (p + block_bytes k) (block_bytes k)

half_size : (k : ℕ) → page_size * 2 ^ (suc k - 1) ≡ block_bytes k
unfolding block_bytes
half_size k = ap (λ n. page_size * 2 ^ n) (omega arith)

-- The code links both halves at once; it comes to the same as one push after another.
module _ (h : Heap) (k p : ℕ) (head : free_list h (suc k) ≡ p) (low : 0 < p)
    (fits : p + block_bytes k < 2 ^ 64) where
  split_block-memory :
      (x : ℕ)
      → (split_block h (suc k)).memory x
        ≡ (push_block
              (push_block (sized (take_head h (suc k)).1 k p) k (p + block_bytes k))
              k
              p).memory
            x
  unfolding split_block take_head push_block
  split_block-memory x =
      let some_head : (p == null) ≡ false = ground arith in
      let no_wrap : word (p + block_bytes k) ≡ p + block_bytes k = omega arith in
      let next_k : suc k - 1 ≡ k = omega arith in
      rw (head, some_head, half_size k, no_wrap, next_k) (ground (arith, page-le-block_bytes k))

  split_block-free_list :
      (j : ℕ)
      → free_list (split_block h (suc k)) j
        ≡ free_list
            (push_block (push_block (sized (take_head h (suc k)).1 k p) k (p + block_bytes k)) k p)
            j
  unfolding split_block take_head push_block
  split_block-free_list j =
      let some_head : (p == null) ≡ false = ground arith in
      let no_wrap : word (p + block_bytes k) ≡ p + block_bytes k = omega arith in
      let next_k : suc k - 1 ≡ k = omega arith in rw (head, some_head, next_k) (ground arith)

split_lists-push :
    (lists : FreeLists) (k p : ℕ) (ps : List ℕ) (j : ℕ)
    → split_lists lists k p ps j ≡ (
        let taken = update lists (suc k) ps in
        let pushed = update taken k ((p + block_bytes k) ∷ taken k) in
        update pushed k (p ∷ pushed k) j)
split_lists-push lists k p ps j = ground arith

size-push_block : (h : Heap) (k p x : ℕ) → ((push_block h k p).memory x).size ≡ (h.memory x).size
unfolding push_block
size-push_block h k p x = ground arith

sized_halves :
    (h : Heap) (k p : ℕ)
    → (((sized h k p).memory p).size ≡ block_bytes k)
      × (((sized h k p).memory (p + block_bytes k)).size ≡ block_bytes k)
sized_halves h k p = (ground arith, ground arith)

sized_elsewhere :
    (h : Heap) (k p x : ℕ) → block_span (suc k) p x ≡ 0 → (sized h k p).memory x ≡ h.memory x
sized_elsewhere h k p x z = ground (arith, page-le-block_bytes k, block_bytes-suc k)

split_block-elsewhere :
    (h : Heap) (k p : ℕ)
    → free_list h (suc k) ≡ p
    → 0 < p
    → p + block_bytes k < 2 ^ 64
    → (x : ℕ) → block_span (suc k) p x ≡ 0
    → (split_block h (suc k)).memory x ≡ h.memory x
unfolding push_block take_head
split_block-elsewhere h k p head low fits x z =
    split_block-memory h k p head low fits x
    ∙ ground (arith, page-le-block_bytes k, block_bytes-suc k)

module _ {lo hi : ℕ} {h : Heap} {lists : FreeLists} {held : ℕ → ℕ}
    (w : IsWell lo hi h lists held) where
  pub head_of_list :
      (k p : ℕ) (ps : List ℕ) → k ≤ max_order → lists k ≡ p ∷ ps → (free_list h k ≡ p) × (p ≢ null)
  head_of_list k p ps i e =
      let c : Chain k h.memory (free_list h k) (p ∷ ps) = rw e at (w.chains k i) in (c.0, c.1)

  -- Both halves lie in the pool, so the address of the second does not wrap.
  second_half_fits :
      (k p : ℕ) (ps : List ℕ)
      → suc k ≤ max_order
      → lists (suc k) ≡ p ∷ ps
      → p + block_bytes k < 2 ^ 64
  second_half_fits k p ps i e =
      let x = p + block_bytes k in
      let t = IsWell-take w (suc k) p ps i e in
      let inside : 0 < held x + block_span (suc k) p x =
        ground (arith, page-le-block_bytes k, block_bytes-suc k) in
      omega (arith, held_in_pool t x inside, w.high)

  pub IsWell-split :
      (k p : ℕ) (ps : List ℕ)
      → suc k ≤ max_order
      → lists (suc k) ≡ p ∷ ps
      → IsWell lo hi (split_block h (suc k)) (split_lists lists k p ps) held
  IsWell-split k p ps i e =
      let buddy = p + block_bytes k in
      let h1 = (take_head h (suc k)).1 in
      let h2 = sized h1 k p in
      let h3 = push_block h2 k buddy in
      let sizes = sized_halves h1 k p in
      let (head, some_head) = head_of_list (suc k) p ps i e in
      let fits = second_half_fits k p ps i e in
      let w1 = IsWell-take w (suc k) p ps i e in
      let w2 = IsWell-write w1 h2.memory (λ x z. sized_elsewhere h1 k p x (omega (arith, z))) in
      let w3 =
        IsWell-push w2 k buddy {held' = λ x. held x + block_span k p x} (omega arith) sizes.1
          (λ x. omega (arith, block_span-suc k p x)) in
      let w4 =
        IsWell-push w3 k p {held' = held} (omega arith) (size-push_block h2 k buddy p ∙ sizes.0)
          (λ x. refl) in
      IsWell-same w4 (split_block-memory h k p head (omega arith) fits)
        (split_block-free_list h k p head (omega arith) fits) (split_lists-push lists k p ps)
        (λ x. refl)

  -- Nothing outside the block is written.
  split_untouched :
      (k p : ℕ) (ps : List ℕ)
      → suc k ≤ max_order
      → lists (suc k) ≡ p ∷ ps
      → (x : ℕ) → 0 < held x
      → (split_block h (suc k)).memory x ≡ h.memory x
  split_untouched k p ps i e x y =
      let (head, some_head) = head_of_list (suc k) p ps i e in
      let taken = IsWell-take w (suc k) p ps i e in
      let outside : block_span (suc k) p x ≡ 0 = ground (arith, taken.tiles x) in
      let low : 0 < p = omega arith in
      split_block-elsewhere h k p head low (second_half_fits k p ps i e) x outside

  -- Where the splitting loop ends, the block it started from heads the list of the order wanted.
  pub record Reached (h' : Heap) (order p : ℕ) : Type 0 where
    pub lists_after : FreeLists
    pub rest : List ℕ
    pub well : IsWell lo hi h' lists_after held
    pub heads : lists_after order ≡ p ∷ rest
    pub untouched : (x : ℕ) → 0 < held x → h'.memory x ≡ h.memory x

pub split_down-Reached :
    (order n : ℕ) {lo hi : ℕ} {h : Heap} {lists : FreeLists} {held : ℕ → ℕ} (p : ℕ) (ps : List ℕ)
    (w : IsWell lo hi h lists held)
    → order + n ≤ max_order
    → lists (order + n) ≡ p ∷ ps
    → Reached w (split_down order n h) order p
unfolding split_down
split_down-Reached order zero {lists} p ps w i e = record {
  lists_after = lists;
  rest = ps;
  well = w;
  heads = ap lists (omega arith) ∙ e;
  untouched = λ x y. refl;
}
split_down-Reached order (suc n) {h} {lists} p ps w i e =
    let k = order + n in
    let top : order + suc n ≡ suc k = omega arith in
    let s = IsWell-split w k p ps (omega arith) (ap lists (sym top) ∙ e) in
    let self : (k == k) ≡ true = (==_iff k k).1 refl in
    let r =
      split_down-Reached order n p ((p + block_bytes k) ∷ lists k) s (omega arith) (rw self) in
    let step : (x : ℕ)
        → (split_down order (suc n) h).memory x
          ≡ (split_down order n (split_block h (suc k))).memory x =
      λ x. ap (λ j. (split_down order n (split_block h j)).memory x) top in
    record {
      lists_after = r.lists_after;
      rest = r.rest;
      well = rw top r.well;
      heads = r.heads;
      untouched = λ x y.
          step x
          ∙ (r.untouched x y ∙ split_untouched w k p ps (omega arith) (ap lists (sym top) ∙ e) x y);
    }
