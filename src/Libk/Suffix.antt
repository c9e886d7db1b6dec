-- ===== src/Libk/Suffix.antt =====
-- `checkStringEndsWith` of libs/libk/src/string.c.
use mirus.Base.{
  ℕ, zero, suc, ◌+◌, ◌-◌, ◌^◌, ◌≤◌, ◌<◌, ◌≡◌, ◌≢◌, ◌⊎◌, refl, true, false, arith, if◌then◌else◌,
  inl, inr, ◌==◌, ==_iff, Bool-cases, Option, some, Bool,
}
use mirus.Libk.{Memory, skip_to_end, dec, suffix_loop, check_string_ends_with}
use mirus.Libk.Strings.{IsString}

skip_to_end_lem :
    (fuel i n s : ℕ) (m : Memory)
    → IsString m s n
    → i ≤ n
    → n < fuel + i
    → skip_to_end fuel (s + i) m ≡ some (s + n)
unfolding skip_to_end
skip_to_end_lem zero i n s m t le enough = absurd (omega arith)
skip_to_end_lem (suc fuel) i n s m t le enough = elim (Bool-cases (i == n)) [
  | inl same ↦ ground (arith, t.ends)
  | inr other ↦
      let more : (m (s + i) == 0) ≡ false = ground (arith, t.body i) in
      let shift : s + i + 1 ≡ s + (i + 1) = omega arith in
      rw (more, shift) (skip_to_end_lem fuel (i + 1) n s m t (ground arith) (omega arith))
]

-- The last `b` bytes up to offset `b` of `end` are those up to offset `a` of `str`; the bytes at
-- offset 0 are not among them.
abbrev pub SameTail : (a b str end : ℕ) → Memory → Type 0
SameTail a b str end m = (b ≤ a) × ((i : ℕ) → i < b → m (str + (a - i)) ≡ m (end + (b - i)))

-- A Boolean result decides a statement.
abbrev pub Decides : Option Bool → Type 0 → Type 0
Decides r P = ((r ≡ some true) × P) ⊎ ((r ≡ some false) × ¬ P)

extend_tail :
    (a b str end : ℕ) (m : Memory)
    → m (str + suc a) ≡ m (end + suc b)
    → SameTail a b str end m
    → SameTail (suc a) (suc b) str end m
extend_tail a b str end m here t = (omega (arith, t.0), go)
  where
    go : (i : ℕ) → i < suc b → m (str + (suc a - i)) ≡ m (end + (suc b - i))
    go zero h = ground (arith, here)
    go (suc i) h = ground (arith, t.1 i)

-- One round of the loop, by the pointers behind it.
suffix_loop_same :
    (fuel s e s' e' s0 e0 : ℕ) (m : Memory)
    → m s ≡ m e
    → dec s ≡ s'
    → dec e ≡ e'
    → suffix_loop (suc fuel) s e s0 e0 m ≡ (
        if e' == e0
        then some true
        else if s' == s0
        then some false
        else suffix_loop fuel s' e' s0 e0 m)
unfolding suffix_loop
suffix_loop_same fuel s e s' e' s0 e0 m h p q =
    let hit : (m s == m e) ≡ true = ground arith in rw (hit, p, q) (ground arith)

suffix_loop_other :
    (fuel s e s0 e0 : ℕ) (m : Memory) → m s ≢ m e → suffix_loop (suc fuel) s e s0 e0 m ≡ some false
unfolding suffix_loop
suffix_loop_other fuel s e s0 e0 m h = let miss : (m s == m e) ≡ false = ground arith in rw miss

extend_decision :
    (a b str end : ℕ) (m : Memory) (r : Option Bool)
    → m (str + suc a) ≡ m (end + suc b)
    → Decides r (SameTail a b str end m)
    → Decides r (SameTail (suc a) (suc b) str end m)
extend_decision a b str end m r here (inl (e, t)) = inl (e, extend_tail a b str end m here t)
extend_decision a b str end m r here (inr (e, n)) =
    inr (e, λ t. n (omega (arith, t.0), λ i h. ground (arith, t.1 (suc i))))

-- What is left of a round after a match, as a function of the recursive result.
after_match :
    (a b str end : ℕ) (m : Memory) (rest : Option Bool)
    → m (str + suc a) ≡ m (end + suc b)
    → ((a' b' : ℕ) → a ≡ suc a' → b ≡ suc b' → Decides rest (SameTail a b str end m))
    → Decides
        (if end + b == end then some true else if str + a == str then some false else rest)
        (SameTail (suc a) (suc b) str end m)
after_match a zero str end m rest here ind =
    let stop : (end + 0 == end) ≡ true = ground arith in
    rw stop (inl (refl, (omega arith, λ i h. ground (arith, here))))
after_match zero (suc b) str end m rest here ind =
    let more : (end + suc b == end) ≡ false = ground arith in
    let stop : (str + 0 == str) ≡ true = ground arith in
    rw (more, stop) (inr (refl, λ t. omega (arith, t.0)))
after_match (suc a) (suc b) str end m rest here ind =
    let more : (end + suc b == end) ≡ false = ground arith in
    let more' : (str + suc a == str) ≡ false = ground arith in
    rw (more, more') (extend_decision (suc a) (suc b) str end m rest here (ind a b refl refl))

last_byte :
    (a b str end : ℕ) (m : Memory)
    → SameTail (suc a) (suc b) str end m
    → m (str + suc a) ≡ m (end + suc b)
last_byte a b str end m t =
    let l : suc a - 0 ≡ suc a = omega arith in
    let r : suc b - 0 ≡ suc b = omega arith in rw (l, r) at (t.1 0 (omega arith))

suffix_loop_lem :
    (fuel a b str end : ℕ) (m : Memory)
    → b < fuel
    → str + suc a < 2 ^ 64
    → end + suc b < 2 ^ 64
    → Decides
        (suffix_loop fuel (str + suc a) (end + suc b) str end m)
        (SameTail (suc a) (suc b) str end m)
suffix_loop_lem zero a b str end m enough fa fb = absurd (omega arith)
suffix_loop_lem (suc fuel) a b str end m enough fa fb =
    elim (Bool-cases (m (str + suc a) == m (end + suc b))) [
      | inl same ↦
          let here : m (str + suc a) ≡ m (end + suc b) = (==_iff _ _).0 same in
          rw
            (suffix_loop_same fuel (str + suc a) (end + suc b) (str + a) (end + b) str end m here
              (omega arith) (omega arith))
            (after_match a b str end m (suffix_loop fuel (str + a) (end + b) str end m) here
              (λ a' b' ea eb.
                rw (ea, eb)
                  (suffix_loop_lem fuel a' b' str end m (omega arith) (omega arith) (omega arith))))
      | inr other ↦
          let differ : m (str + suc a) ≢ m (end + suc b) = ground arith in
          inr (
            suffix_loop_other fuel (str + suc a) (end + suc b) str end m differ,
            λ t. differ (last_byte a b str end m t),
          )
    ]

-- For strings of two characters and more that end before the end of the address space, with fuel
-- beyond both lengths, `checkStringEndsWith` returns, and whether the first string ends with the
-- second one without its first character, the shorter being no longer than the longer.
pub check_string_ends_with_lem :
    (fuel a b str end : ℕ) (m : Memory)
    → IsString m str (suc (suc a))
    → IsString m end (suc (suc b))
    → a + 2 < fuel
    → b + 2 < fuel
    → str + a + 2 < 2 ^ 64
    → end + b + 2 < 2 ^ 64
    → Decides (check_string_ends_with fuel str end m) (SameTail (suc a) (suc b) str end m)
unfolding check_string_ends_with
check_string_ends_with_lem fuel a b str end m s e fs fe ns ne =
    let first : skip_to_end fuel str m ≡ some (str + suc (suc a)) =
      at_start str (skip_to_end_lem fuel 0 (suc (suc a)) str m s (omega arith) (omega arith)) in
    let second : skip_to_end fuel end m ≡ some (end + suc (suc b)) =
      at_start end (skip_to_end_lem fuel 0 (suc (suc b)) end m e (omega arith) (omega arith)) in
    let p : dec (str + suc (suc a)) ≡ str + suc a = omega arith in
    let q : dec (end + suc (suc b)) ≡ end + suc b = omega arith in
    rw (check_string_ends_with, first, second, p, q)
      (suffix_loop_lem fuel a b str end m (omega arith) (omega arith) (omega arith))
  where
    at_start : (p : ℕ) {r : Option ℕ} → skip_to_end fuel (p + 0) m ≡ r → skip_to_end fuel p m ≡ r
    at_start p h = let z : p + 0 ≡ p = omega arith in rw z at h
