-- ===== src/Buddy/Cover.antt =====
-- Which addresses the free lists cover, counted: the memory view of buddy.c's lists.
use mirus.Base.{
  ℕ, zero, suc, ◌+◌, ◌*◌, ◌^◌, ◌≤◌, ◌<◌, ◌≡◌, refl, false, ◌&&◌, List, [], ◌∷◌, arith, inl, inr,
  ltb, leb, ◌==◌, if◌then◌else◌, has, Bool-cases,
}
use native.Mathlib.Nat.{pow-suc}
use mirus.Buddy.{max_order, page_size, update}

-- the bytes of a block of an order
unfoldable pub block_bytes : ℕ → ℕ
block_bytes order = page_size * 2 ^ order

pub block_bytes-zero : block_bytes 0 ≡ page_size
unfolding block_bytes
block_bytes-zero = refl

pub block_bytes-suc : (k : ℕ) → block_bytes (suc k) ≡ block_bytes k + block_bytes k
unfolding block_bytes
block_bytes-suc k = omega (arith, pow-suc 2 k)

pub page-le-block_bytes : (k : ℕ) → page_size ≤ block_bytes k
unfolding block_bytes
page-le-block_bytes zero = omega arith
page-le-block_bytes (suc k) =
    unfold block_bytes in omega (arith, pow-suc 2 k, page-le-block_bytes k)

-- 1 at the addresses from `lo` up to `hi`, else 0
abbrev pub span : (lo hi x : ℕ) → ℕ
span lo hi x = if leb lo x && ltb x hi then 1 else 0

-- 1 at the addresses of the block at `p`
abbrev pub block_span : (order p x : ℕ) → ℕ
block_span order p x = span p (p + block_bytes order) x

-- The free lists as lists of addresses, one for each order.
abbrev pub FreeLists : Type 0
FreeLists = ℕ → List ℕ

-- how many blocks of a list hold the address `x`
abbrev pub list_cover : (order : ℕ) → List ℕ → ℕ → ℕ
list_cover order [] x = 0
list_cover order (p ∷ ps) x = block_span order p x + list_cover order ps x

-- how many free blocks of the orders below `n` hold it
abbrev pub cover : ℕ → FreeLists → ℕ → ℕ
cover zero lists x = 0
cover (suc n) lists x = cover n lists x + list_cover n (lists n) x

cover-update_out :
    (n : ℕ) (lists : FreeLists) (k : ℕ) (ps : List ℕ) (x : ℕ)
    → n ≤ k
    → cover n (update lists k ps) x ≡ cover n lists x
cover-update_out zero lists k ps x h = refl
cover-update_out (suc n) lists k ps x h = ground (arith, cover-update_out n lists k ps x)

cover-update :
    (n : ℕ) (lists : FreeLists) (k : ℕ) (ps : List ℕ) (x : ℕ)
    → k < n
    → cover n (update lists k ps) x + list_cover k (lists k) x ≡ cover n lists x + list_cover k ps x
cover-update zero lists k ps x h = absurd (omega arith)
cover-update (suc n) lists k ps x h =
    ground (arith, cover-update n lists k ps x, cover-update_out n lists k ps x)

pub block_span_start : (k p : ℕ) → block_span k p p ≡ 1
block_span_start k p = ground (arith, page-le-block_bytes k)

pub block_span-suc :
    (k p x : ℕ) → block_span (suc k) p x ≡ block_span k p x + block_span k (p + block_bytes k) x
block_span-suc k p x = rw block_bytes-suc (ground (arith, page-le-block_bytes k))

list_cover-zero : (k : ℕ) (ps : List ℕ) (x : ℕ) → list_cover k ps x ≡ 0 → has x ps ≡ false
list_cover-zero k [] x h = refl
list_cover-zero k (p ∷ ps) x h = ground (arith, list_cover-zero k ps x, page-le-block_bytes k)

-- An address that no free block holds is on no list.
cover-zero :
    (n : ℕ) (lists : FreeLists) (x j : ℕ) → j < n → cover n lists x ≡ 0 → has x (lists j) ≡ false
cover-zero zero lists x j h e = absurd (omega arith)
cover-zero (suc n) lists x j h e = elim (Bool-cases (j == n)) [
  | inl same ↦ ground (arith, list_cover-zero j (lists j) x)
  | inr other ↦ ground (arith, cover-zero n lists x j)
]

-- how many free blocks hold the address `x`
unfoldable pub free_cover : FreeLists → ℕ → ℕ
free_cover lists x = cover (max_order + 1) lists x

pub free_cover-update :
    (lists : FreeLists) (k : ℕ) (ps : List ℕ) (x : ℕ)
    → k ≤ max_order
    → free_cover (update lists k ps) x + list_cover k (lists k) x
      ≡ free_cover lists x + list_cover k ps x
unfolding free_cover
free_cover-update lists k ps x h = cover-update (max_order + 1) lists k ps x (omega arith)

pub free_cover-zero :
    (lists : FreeLists) (x j : ℕ) → j ≤ max_order → free_cover lists x ≡ 0 → has x (lists j) ≡ false
unfolding free_cover
free_cover-zero lists x j h e = cover-zero (max_order + 1) lists x j (omega arith) e

cover-nil : (n x : ℕ) → cover n (λ _. []) x ≡ 0
cover-nil zero x = refl
cover-nil (suc n) x = omega (arith, cover-nil n x)

pub free_cover-nil : (x : ℕ) → free_cover (λ _. []) x ≡ 0
unfolding free_cover
free_cover-nil x = cover-nil (max_order + 1) x
