-- ===== src/Libk/Strings.antt =====
-- `strlen` and `reverse` of libs/libk/src/string.c.
use mirus.Base.{
  ℕ, zero, suc, ◌*◌, false, ◌+◌, ◌-◌, ◌/◌, ◌≤◌, ◌<◌, ◌≡◌, ◌≢◌, arith, ltb, leb, ◌&&◌, ◌||◌,
  if◌then◌else◌, inl, inr, ◌==◌, Bool-cases, some, update,
}
use mirus.Libk.{Memory, strlen_from, strlen, reverse_loop, reverse}

-- At `s` stand `n` bytes that are not zero, and then a zero.
pub record IsString (m : Memory) (s n : ℕ) : Type 0 where
  pub body : (i : ℕ) → i < n → m (s + i) ≢ 0
  pub ends : m (s + n) ≡ 0

strlen_from_lem :
    (fuel i n s : ℕ) (m : Memory)
    → IsString m s n
    → i ≤ n
    → n < fuel + i
    → strlen_from fuel (s + i) i m ≡ some n
unfolding strlen_from
strlen_from_lem zero i n s m t le enough = absurd (omega arith)
strlen_from_lem (suc fuel) i n s m t le enough = elim (Bool-cases (i == n)) [
  | inl same ↦ ground (arith, t.ends)
  | inr other ↦
      let more : (m (s + i) == 0) ≡ false = ground (arith, t.body i) in
      let shift : s + i + 1 ≡ s + (i + 1) = omega arith in
      rw (more, shift) (strlen_from_lem fuel (i + 1) n s m t (ground arith) (omega arith))
]

-- `strlen` ends with the length of the string, given a step for each byte and one for the zero.
pub strlen_lem : (fuel n s : ℕ) (m : Memory) → IsString m s n → n < fuel → strlen fuel s m ≡ some n
unfolding strlen
strlen_lem fuel n s m t enough =
    let start : s + 0 ≡ s = omega arith in
    rw start at (strlen_from_lem fuel 0 n s m t (omega arith) (omega arith))

reverse_loop_lem :
    (rounds begin end : ℕ) (m : Memory) (x : ℕ)
    → begin + 2 * rounds ≤ end + 1
    → reverse_loop rounds begin end m x ≡ (
        if (leb begin x && ltb x (begin + rounds)) || (ltb end (x + rounds) && leb x end)
        then m (begin + end - x)
        else m x)
unfolding reverse_loop
reverse_loop_lem zero begin end m x h = ground arith
reverse_loop_lem (suc rounds) begin end m x h =
    let m' = update (update m end (m begin)) begin (m end) in
    ground (arith, reverse_loop_lem rounds (begin + 1) (end - 1) m' x)

-- `reverse` ends, with the bytes of the string in the opposite order and no other byte changed.
pub reverse_lem :
    (fuel n s : ℕ) (m : Memory)
    → IsString m s n
    → n < fuel
    → (m' : Memory) × (reverse fuel s m ≡ some m')
      × ((x : ℕ) → m' x ≡ (if leb s x && ltb x (s + n) then m (s + (s + n - 1 - x)) else m x))
unfolding reverse
reverse_lem fuel n s m t enough = (
  reverse_loop (n / 2) s (s + (n - 1)) m,
  rw (reverse, strlen_lem fuel n s m t enough),
  λ x. ground (arith, reverse_loop_lem (n / 2) s (s + (n - 1)) m x),
)
