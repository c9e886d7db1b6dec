-- ===== src/Buddy/Order.antt =====
-- `find_order` of buddy.c: the smallest order whose block is large enough, up to `MAX_ORDER`.
use mirus.Base.{
  ℕ, zero, suc, ◌+◌, ◌*◌, ◌^◌, ◌≤◌, ◌<◌, ◌≡◌, ◌&&◌, refl, arith, inl, inr, ltb, Bool-cases, ◌==◌,
  ==_iff, ◌⊎◌, ◌-◌,
}
use native.Mathlib.Nat.{suc-add}
use native.Mathlib.Numerals.{add-one}
use mirus.Buddy.{max_order, word, find_order_loop, find_order}
use mirus.Buddy.Cover.{block_bytes, block_bytes-suc, page-le-block_bytes}

-- What the loop finds: the order is at most `max_order`, large enough if any is, and none below
-- it is large enough.
pub record Fits (size order : ℕ) : Type 0 where
  pub bounded : order ≤ max_order
  pub enough : (size ≤ block_bytes order) ⊎ (order ≡ max_order)
  pub least : (k : ℕ) → k < order → block_bytes k < size

block_bytes_mono : (k n : ℕ) → block_bytes k ≤ block_bytes (n + k)
block_bytes_mono k zero = ground arith
block_bytes_mono k (suc n) =
    rw suc-add (omega (arith, block_bytes_mono k n, block_bytes-suc (n + k)))

pub block_bytes_bound : (k : ℕ) → k ≤ max_order → block_bytes k ≤ 2 ^ 23
unfolding block_bytes
block_bytes_bound k h =
    let up = block_bytes_mono k (max_order - k) in
    let top : max_order - k + k ≡ max_order = omega arith in rw top at up

below_next :
    (order size : ℕ)
    → ((k : ℕ) → k < order → block_bytes k < size)
    → block_bytes order < size
    → (k : ℕ) → k < suc order
    → block_bytes k < size
below_next order size below here k h = elim (Bool-cases (k == order)) [
  | inl same ↦ rw ((==_iff k order).0 same) here
  | inr other ↦ below k (ground arith)
]

find_order_loop-Fits :
    (rounds order size : ℕ)
    → order + rounds ≡ max_order + 1
    → order ≤ max_order
    → ((k : ℕ) → k < order → block_bytes k < size)
    → Fits size (find_order_loop rounds order (block_bytes order) size)
unfolding find_order_loop
find_order_loop-Fits zero order size e i below = absurd (omega arith)
find_order_loop-Fits (suc rounds) order size e i below =
    let next : word (block_bytes order * 2) ≡ block_bytes (suc order) =
      omega (arith, block_bytes-suc order, block_bytes_bound order i) in
    elim (Bool-cases (ltb (block_bytes order) size && ltb order max_order)) [
      | inl more ↦
          rw (more, next, add-one)
            (find_order_loop-Fits rounds (suc order) size (omega arith) (ground arith)
              (below_next order size below (ground arith)))
      | inr done ↦ rw done (record { bounded = i; enough = ground arith; least = below })
    ]

-- For every size `find_order` gives an order up to `max_order` that is large enough unless it is
-- `max_order`, and no smaller order is large enough.
pub find_order-Fits : (size : ℕ) → Fits size (find_order size)
unfolding find_order block_bytes
find_order-Fits size =
    find_order_loop-Fits (max_order + 1) 0 size refl (omega arith) (λ k h. absurd (omega arith))

pub block_bytes_strict : (j k : ℕ) → j < k → block_bytes j < block_bytes k
block_bytes_strict j k h =
    let up = block_bytes_mono (suc j) (k - suc j) in
    let top : k - suc j + suc j ≡ k = omega arith in
    omega (arith, rw top at up, block_bytes-suc j, page-le-block_bytes j)

-- The size in the header of a block gives the order that it was allocated at.
pub find_order-block_bytes : (k : ℕ) → k ≤ max_order → find_order (block_bytes k) ≡ k
find_order-block_bytes k i =
    let f = find_order-Fits (block_bytes k) in
    let o = find_order (block_bytes k) in
    ground (arith, f.bounded, f.enough, f.least k, block_bytes_strict o k)
