-- ===== src/Libk/Compare.antt =====
-- `memcmp` of libs/libk/src/string.c.
use mirus.Base.{
  ℕ, zero, suc, ◌+◌, ◌≤◌, ◌<◌, ◌≡◌, ◌≢◌, ◌⊎◌, refl, arith, ltb, if◌then◌else◌, inl, inr, ◌==◌,
  Bool-cases,
}
use mirus.Base.Int.{ℤ, pos, negsuc}
use mirus.Libk.{Memory, memcmp_from, memcmp}

-- No byte differs, and the result is 0.
abbrev pub SameBytes : (i n s1 s2 : ℕ) → Memory → ℤ → Type 0
SameBytes i n s1 s2 m r = (r ≡ pos 0) × ((j : ℕ) → i ≤ j → j < n → m (s1 + j) ≡ m (s2 + j))

-- The result tells which side has the smaller byte at the first index where they differ.
pub record FirstDifference (i n s1 s2 : ℕ) (m : Memory) (r : ℤ) : Type 0 where
  pub index : ℕ
  pub in_range : (i ≤ index) × (index < n)
  pub same_before : (j : ℕ) → i ≤ j → j < index → m (s1 + j) ≡ m (s2 + j)
  pub differs : m (s1 + index) ≢ m (s2 + index)
  pub sign : r ≡ (if ltb (m (s1 + index)) (m (s2 + index)) then negsuc 0 else pos 1)

extend :
    (i k s1 s2 : ℕ) (m : Memory)
    → m (s1 + i) ≡ m (s2 + i)
    → ((j : ℕ) → i + 1 ≤ j → j < k → m (s1 + j) ≡ m (s2 + j))
    → (j : ℕ) → i ≤ j
    → j < k
    → m (s1 + j) ≡ m (s2 + j)
extend i k s1 s2 m here rest j a b = elim (Bool-cases (j == i)) [
  | inl same ↦ ground (arith, here)
  | inr other ↦ rest j (ground arith) b
]

memcmp_from_lem :
    (rounds i n s1 s2 : ℕ) (m : Memory)
    → i + rounds ≡ n
    → SameBytes i n s1 s2 m (memcmp_from rounds i s1 s2 m)
      ⊎ FirstDifference i n s1 s2 m (memcmp_from rounds i s1 s2 m)
unfolding memcmp_from
memcmp_from_lem zero i n s1 s2 m e = inl (refl, λ j a b. absurd (omega arith))
memcmp_from_lem (suc rounds) i n s1 s2 m e = elim (Bool-cases (m (s1 + i) == m (s2 + i))) [
  | inl same ↦
      let here : m (s1 + i) ≡ m (s2 + i) = ground arith in
      rw same (elim (memcmp_from_lem rounds (i + 1) n s1 s2 m (omega arith)) [
        | inl (zero_result, all) ↦ inl (zero_result, extend i n s1 s2 m here all)
        | inr d ↦ inr (record {
          index = d.index;
          in_range = omega (arith, d.in_range);
          same_before = extend i d.index s1 s2 m here d.same_before;
          differs = d.differs;
          sign = d.sign;
        })
      ])
  | inr other ↦ rw other (
      inr (record {
        index = i;
        in_range = omega arith;
        same_before = λ j a b. absurd (omega arith);
        differs = ground arith;
        sign = refl;
      }))
]

-- `memcmp` returns 0 if no byte differs; else -1 or 1, as the first bytes that differ are ordered.
pub memcmp_lem :
    (s1 s2 n : ℕ) (m : Memory)
    → SameBytes 0 n s1 s2 m (memcmp s1 s2 n m) ⊎ FirstDifference 0 n s1 s2 m (memcmp s1 s2 n m)
unfolding memcmp
memcmp_lem s1 s2 n m = memcmp_from_lem n 0 n s1 s2 m (omega arith)
