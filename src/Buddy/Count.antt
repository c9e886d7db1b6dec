-- ===== src/Buddy/Count.antt =====
-- A free list has no more blocks than the pool has pages, so the searches of buddy.c's
-- `buddy_allocator_free` end.
use mirus.Base.{ℕ, zero, suc, ◌+◌, ◌-◌, ◌*◌, ◌≤◌, ◌<◌, ◌≡◌, refl, List, [], ◌∷◌, arith, length}
use Prim.Native.Nat.{min}
use mirus.Buddy.{Heap, page_size}
use mirus.Buddy.Cover.{FreeLists, block_bytes, block_span, span, list_cover, page-le-block_bytes}
use mirus.Buddy.Valid.{IsWell}
use mirus.Buddy.Unlink.{list_in_pool}
use mirus.Buddy.Free.{Short}

pub sum_below : ℕ → (ℕ → ℕ) → ℕ
sum_below zero f = 0
sum_below (suc n) f = sum_below n f + f n

pub sum_below-span : (n lo hi : ℕ) → lo ≤ hi → sum_below n (span lo hi) ≡ min hi n - min lo n
unfolding sum_below
sum_below-span zero lo hi h = omega arith
sum_below-span (suc n) lo hi h = ground (arith, sum_below-span n lo hi h)

sum_below_mono : (n : ℕ) (f g : ℕ → ℕ) → ((x : ℕ) → f x ≤ g x) → sum_below n f ≤ sum_below n g
unfolding sum_below
sum_below_mono zero f g h = omega arith
sum_below_mono (suc n) f g h = omega (arith, sum_below_mono n f g h, h n)

pub sum_below-add :
    (n : ℕ) (f g : ℕ → ℕ) → sum_below n (λ x. f x + g x) ≡ sum_below n f + sum_below n g
unfolding sum_below
sum_below-add zero f g = omega arith
sum_below-add (suc n) f g = omega (arith, sum_below-add n f g)

pub sum_below-cong : (n : ℕ) (f g : ℕ → ℕ) → ((x : ℕ) → f x ≡ g x) → sum_below n f ≡ sum_below n g
unfolding sum_below
sum_below-cong zero f g h = refl
sum_below-cong (suc n) f g h = omega (arith, sum_below-cong n f g h, h n)

pub sum_below-zero : (n : ℕ) → sum_below n (λ _. 0) ≡ 0
unfolding sum_below
sum_below-zero zero = refl
sum_below-zero (suc n) = omega (arith, sum_below-zero n)

pub sum_below-list_cover :
    (n k : ℕ) (ps : List ℕ)
    → ((x : ℕ) → 0 < list_cover k ps x → x < n)
    → sum_below n (list_cover k ps) ≡ length ps * block_bytes k
sum_below-list_cover n k [] h = rw (sum_below-zero n) (omega arith)
sum_below-list_cover n k (p ∷ ps) h =
    let last : p + block_bytes k ≤ n =
      ground (arith, page-le-block_bytes k, h (p + (block_bytes k - 1))) in
    omega (
      arith,
      sum_below-add n (block_span k p) (list_cover k ps),
      sum_below-span n p (p + block_bytes k) (omega arith),
      sum_below-list_cover n k ps (λ x y. h x (omega arith)),
    )

mul_mono : (n a b : ℕ) → a ≤ b → n * a ≤ n * b
mul_mono n a b h = grind arith

module _ {lo hi : ℕ} {h : Heap} {lists : FreeLists} {held : ℕ → ℕ}
    (w : IsWell lo hi h lists held) where
  pub IsWell-Short : (pages : ℕ) → lo ≤ hi → hi ≤ lo + pages * page_size → Short (pages + 1) lists
  IsWell-Short pages le fits j i =
      let total =
        sum_below-list_cover hi j (lists j) (λ x y. ground (arith, list_in_pool w j i x)) in
      let whole = sum_below_mono hi (list_cover j (lists j)) (span lo hi) (list_in_pool w j i) in
      omega (
        arith,
        total,
        whole,
        sum_below-span hi lo hi le,
        mul_mono (length (lists j)) page_size (block_bytes j) (page-le-block_bytes j),
      )
