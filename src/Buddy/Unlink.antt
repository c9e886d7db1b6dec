-- ===== src/Buddy/Unlink.antt =====
-- The search of buddy.c's `buddy_allocator_free` through a free list, and the unlinking of what it
-- finds.
use mirus.Base.{
  ℕ, zero, suc, ◌+◌, ◌≤◌, ◌<◌, ◌≡◌, refl, ◌≢◌, true, false, List, [], ◌∷◌, arith, ◌⊎◌, Bool, inl,
  inr, ◌==◌, if◌then◌else◌, ==_iff, ap, sym, ◌∙◌, Bool-cases, has, erase, length,
}
use mathlib.Core.Path.{subst, subst₂}
use mirus.Buddy.{
  BuddyBlock, Heap, max_order, null, update, free_list, set_next, set_list, not_found, found, scan,
  unlink,
}
use mirus.Buddy.Cover.{
  FreeLists, block_span, span, block_span_start, list_cover, free_cover, free_cover-update,
  free_cover-zero, page-le-block_bytes,
}
use mirus.Buddy.Valid.{Chain, Chain-frame, IsWell}

-- the node before the first `b` of a list that hangs on `prev`
abbrev pub before : (b prev : ℕ) → List ℕ → ℕ
before b prev [] = prev
before b prev (q ∷ qs) = if q == b then prev else before b q qs

-- The search walks the whole chain if it has to, and needs no more fuel than that.
pub scan-before :
    (fuel k b : ℕ) (m : ℕ → BuddyBlock) (prev p : ℕ) (qs : List ℕ)
    → Chain k m p qs
    → length qs < fuel
    → scan fuel m b prev p ≡ (if has b qs then found (before b prev qs) else not_found)
unfolding scan
scan-before zero k b m prev p qs c h = absurd (omega arith)
scan-before (suc fuel) k b m prev p [] c h = ground arith
scan-before (suc fuel) k b m prev p (q ∷ qs) c h =
    rw (c.0) (ground (arith, c.1, scan-before fuel k b m q (m q).next qs (c.3)))

abbrev Distinct : List ℕ → Type 0
Distinct [] = Unit
Distinct (q ∷ qs) = (has q qs ≡ false) × Distinct qs

list_cover-has : (k : ℕ) (qs : List ℕ) (x : ℕ) → has x qs ≡ true → 0 < list_cover k qs x
list_cover-has k [] x y = absurd (ground arith)
list_cover-has k (q ∷ qs) x y = ground (arith, page-le-block_bytes k, list_cover-has k qs x)

list_cover-Distinct : (k : ℕ) (qs : List ℕ) → ((x : ℕ) → list_cover k qs x ≤ 1) → Distinct qs
list_cover-Distinct k [] once = tt
list_cover-Distinct k (q ∷ qs) once = (
  ground (arith, once q, block_span_start k q, list_cover-has k qs q),
  list_cover-Distinct k qs (λ x. omega (arith, once x)),
)

list_cover-erase :
    (k b : ℕ) (qs : List ℕ) (x : ℕ)
    → has b qs ≡ true
    → list_cover k (erase b qs) x + block_span k b x ≡ list_cover k qs x
list_cover-erase k b [] x y = absurd (ground arith)
list_cover-erase k b (q ∷ qs) x y = elim (Bool-cases (q == b)) [
  | inl same ↦ let e : q ≡ b = (==_iff q b).0 same in rw (same, e) (omega arith)
  | inr other ↦ rw other (omega (arith, list_cover-erase k b qs x (ground arith)))
]

has-before : (b q : ℕ) (qs : List ℕ) → has b qs ≡ true → has (before b q qs) (q ∷ qs) ≡ true
has-before b q [] y = absurd (ground arith)
has-before b q (r ∷ rs) y = ground (arith, has-before b r rs)

-- the memory after `c->next = n`
abbrev pub skip : (ℕ → BuddyBlock) → (c n : ℕ) → ℕ → BuddyBlock
skip m c n = update m c (record (m c) { next = n })

skip_self : (m : ℕ → BuddyBlock) (c n : ℕ) → (skip m c n c).next ≡ n
skip_self m c n = ground arith

skip_else : (m : ℕ → BuddyBlock) (c n x : ℕ) → x ≢ c → skip m c n x ≡ m x
skip_else m c n x h = ground arith

skip_size : (m : ℕ → BuddyBlock) (c n x : ℕ) → (skip m c n x).size ≡ (m x).size
skip_size m c n x = ground arith

has-ne : (q x : ℕ) (qs : List ℕ) → has x qs ≡ true → has q qs ≡ false → x ≢ q
has-ne q x qs y z = ground arith

-- Behind `q` the chain leaves `b` out once its predecessor points past it.
Chain-erase :
    (k b q : ℕ) (m : ℕ → BuddyBlock) (qs : List ℕ)
    → Chain k m (m q).next qs
    → has b qs ≡ true
    → Distinct (q ∷ qs)
    → (let m' = skip m (before b q qs) (m b).next in Chain k m' (m' q).next (erase b qs))
Chain-erase k b q m [] c y d = absurd (ground arith)
Chain-erase k b q m (r ∷ rs) c y d = elim (Bool-cases (r == b)) [
  | inl same ↦
      let here : r ≡ b = (==_iff r b).0 same in
      let out : has q rs ≡ false = ground arith in
      let rest =
        Chain-frame k m (skip m q (m b).next) (m r).next rs (c.3)
          (λ x z. skip_else m q (m b).next x (has-ne q x rs z out)) in
      rw (same, skip_self m q (m b).next) (rw here at rest)
  | inr other ↦
      let m' = skip m (before b r rs) (m b).next in
      let in_rest : has b rs ≡ true = ground arith in
      let apart : q ≢ before b r rs =
        λ z. has-ne q (before b r rs) (r ∷ rs) (has-before b r rs in_rest) (d.0) (sym z) in
      rw other (
        rw (skip_else m (before b r rs) (m b).next q apart) (c.0),
        c.1,
        skip_size m (before b r rs) (m b).next r ∙ c.2,
        Chain-erase k b r m rs (c.3) in_rest (d.1),
      )
]

Chain-ne_null :
    (k : ℕ) (m : ℕ → BuddyBlock) (p : ℕ) (qs : List ℕ)
    → Chain k m p qs
    → (x : ℕ) → has x qs ≡ true
    → x ≢ null
Chain-ne_null k m p [] c x y = absurd (ground arith)
Chain-ne_null k m p (q ∷ qs) c x y = ground (arith, c.1, Chain-ne_null k m (m q).next qs (c.3) x)

unlink_first : (h : Heap) (k b : ℕ) → unlink h k null b ≡ set_list h k (h.memory b).next
unfolding unlink
unlink_first h k b = refl

unlink_inner :
    (h : Heap) (k prev b : ℕ) → prev ≢ null → unlink h k prev b ≡ set_next h prev (h.memory b).next
unfolding unlink
unlink_inner h k prev b n = let other : (prev == null) ≡ false = ground arith in rw other

-- Nothing but `prev` and the head of the list changes.
pub unlink_elsewhere :
    (h : Heap) (k prev b x : ℕ)
    → x ≢ prev ⊎ (prev ≡ null)
    → (unlink h k prev b).memory x ≡ h.memory x
unfolding unlink
unlink_elsewhere h k prev b x n = ground arith

free_list-unlink :
    (h : Heap) (k prev b j : ℕ) → j ≢ k → free_list (unlink h k prev b) j ≡ free_list h j
unfolding unlink
free_list-unlink h k prev b j n = ground arith

-- The whole list, from its head.
Chain-unlink :
    (k b : ℕ) (h : Heap) (qs : List ℕ)
    → Chain k h.memory (free_list h k) qs
    → has b qs ≡ true
    → Distinct qs
    → Chain k
        (unlink h k (before b null qs) b).memory
        (free_list (unlink h k (before b null qs) b) k)
        (erase b qs)
Chain-unlink k b h [] c y d = absurd (ground arith)
Chain-unlink k b h (q ∷ qs) c y d = elim (Bool-cases (q == b)) [
  | inl same ↦
      let self : (k == k) ≡ true = (==_iff k k).1 refl in
      let here : q ≡ b = (==_iff q b).0 same in
      let first : before b null (q ∷ qs) ≡ null = rw same in
      let left : erase b (q ∷ qs) ≡ qs = rw same in
      subst₂ (λ g rest. Chain k g.memory (free_list g k) rest)
        (sym (ap (λ p. unlink h k p b) first ∙ unlink_first h k b)) (sym left)
        (rw self (rw here at (c.3)))
  | inr other ↦
      let in_rest : has b qs ≡ true = ground arith in
      let prev = before b q qs in
      let some_prev =
        Chain-ne_null k h.memory (free_list h k) (q ∷ qs) c prev (has-before b q qs in_rest) in
      let inner : before b null (q ∷ qs) ≡ prev = rw other in
      let left : erase b (q ∷ qs) ≡ q ∷ erase b qs = rw other in
      subst₂ (λ g rest. Chain k g.memory (free_list g k) rest)
        (sym (ap (λ p. unlink h k p b) inner ∙ unlink_inner h k prev b some_prev)) (sym left)
        (
          c.0,
          c.1,
          skip_size h.memory prev (h.memory b).next q ∙ c.2,
          Chain-erase k b q h.memory qs (c.3) in_rest d,
        )
]

prev_elsewhere :
    (b x : ℕ) (qs : List ℕ) {out : Bool}
    → has b qs ≡ true
    → (has x qs ≡ true → out ≡ false)
    → out ≡ true
    → x ≢ before b null qs ⊎ (before b null qs ≡ null)
prev_elsewhere b x [] y apart z = inr refl
prev_elsewhere b x (q ∷ qs) y apart z = elim (Bool-cases (q == b)) [
  | inl same ↦ inr (rw same)
  | inr other ↦
      let hit = has-before b q qs (ground arith) in
      inl (
        rw other
          (λ (e : x ≡ before b q qs). cc (apart (subst (λ v. has v (q ∷ qs) ≡ true) (sym e) hit))))
]

pub prev_outside :
    (b x : ℕ) (qs : List ℕ)
    → has b qs ≡ true
    → has x qs ≡ false
    → x ≢ before b null qs ⊎ (before b null qs ≡ null)
prev_outside b x qs y out = prev_elsewhere b x qs {out = true} y (λ u. cc) refl

module _ {lo hi : ℕ} {h : Heap} {lists : FreeLists} {held : ℕ → ℕ}
    (w : IsWell lo hi h lists held) where
  pub list_in_pool : (k : ℕ) → k ≤ max_order → (x : ℕ) → list_cover k (lists k) x ≤ span lo hi x
  list_in_pool k i x = ground (arith, w.tiles x, free_cover-update lists k [] x i)

  list_once : (k : ℕ) → k ≤ max_order → (x : ℕ) → list_cover k (lists k) x ≤ 1
  list_once k i x = ground (arith, w.tiles x, free_cover-update lists k [] x i)

  -- A node of one list is on no other.
  lists_apart :
      (k j x : ℕ)
      → k ≤ max_order
      → j ≤ max_order
      → j ≢ k
      → has x (lists k) ≡ true
      → has x (lists j) ≡ false
  lists_apart k j x i a n y =
      let none : free_cover (update lists k []) x ≡ 0 =
        ground
          (arith, w.tiles x, free_cover-update lists k [] x i, list_cover-has k (lists k) x y) in
      let other : (j == k) ≡ false = ground arith in
      rw other at (free_cover-zero (update lists k []) x j a none)

  -- The unlinked block is held from then on.
  pub IsWell-unlink :
      (k b : ℕ)
      → k ≤ max_order
      → has b (lists k) ≡ true
      → IsWell lo hi
          (unlink h k (before b null (lists k)) b)
          (update lists k (erase b (lists k)))
          (λ x. held x + block_span k b x)
  IsWell-unlink k b i y =
      let d = list_cover-Distinct k (lists k) (list_once k i) in
      let prev = before b null (lists k) in
      record {
        chains = λ j a. elim (Bool-cases (j == k)) [
          | inl same ↦
              let here : j ≡ k = (==_iff j k).0 same in
              rw (same, here) (Chain-unlink k b h (lists k) (w.chains k i) y d)
          | inr other ↦
              let apart : j ≢ k = ground arith in
              rw (other, free_list-unlink h k prev b j apart)
                (Chain-frame j h.memory (unlink h k prev b).memory (free_list h j) (lists j)
                  (w.chains j a)
                  (λ x z.
                    unlink_elsewhere h k prev b x
                      (prev_elsewhere b x (lists k) y (λ u. lists_apart k j x i a apart u) z)))
        ];
        tiles = λ x. omega (
          arith,
          w.tiles x,
          list_cover-erase k b (lists k) x y,
          free_cover-update lists k (erase b (lists k)) x i,
        );
        low = w.low;
        high = w.high;
      }
