-- ===== src/Syscalls/Entry/Stack.antt =====
-- What pushes leave on a stack and pops take from it, for the assembly of kernel/core/syscalls.c.
use mirus.Base.{
  ℕ, suc, ◌+◌, ◌-◌, ◌*◌, ◌%◌, ◌^◌, ◌≤◌, ◌<◌, ◌≡◌, ◌≢◌, refl, ◌∙◌, false, arith, List, [], ◌∷◌, ◌++◌,
  ◌==◌, update, length,
}
use mathlib.Core.Path.{subst}
use mirus.Syscalls.Entry.Reg
use mirus.Syscalls.Entry.{Machine, Instruction, push, pop, step, run}

-- From `p` on stand these quadwords, the top of the stack first.
abbrev pub Holds : (ℕ → ℕ) → ℕ → List ℕ → Type 0
Holds m p [] = Unit
Holds m p (v ∷ vs) = (m p ≡ v) × Holds m (p + 8) vs

pub Holds-frame :
    (m m' : ℕ → ℕ) (p : ℕ) (vs : List ℕ)
    → ((x : ℕ) → p ≤ x → x < p + 8 * length vs → m' x ≡ m x)
    → Holds m p vs
    → Holds m' p vs
Holds-frame m m' p [] same h = tt
Holds-frame m m' p (v ∷ vs) same (here, rest) = (
  rw (same p (omega arith) (omega arith)) here,
  Holds-frame m m' (p + 8) vs (λ x le lt. same x (omega (arith, le)) (omega (arith, lt))) rest,
)

-- The lower part of a stack, and what lies over it.
pub Holds-append :
    (m : ℕ → ℕ) (p : ℕ) (vs ws : List ℕ)
    → Holds m p (vs ++ ws)
    → Holds m p vs × Holds m (p + 8 * length vs) ws
Holds-append m p [] ws h = let e : p + 8 * 0 ≡ p = omega arith in (tt, rw e h)
Holds-append m p (v ∷ vs) ws (here, rest) =
    let r = Holds-append m (p + 8) vs ws rest in
    let e : p + 8 * suc (length vs) ≡ p + 8 + 8 * length vs = omega arith in
    ((here, r.0), rw e (r.1))

-- the values that a list of pushes leaves, over what was there
abbrev pub pushed : (ℕ → ℕ) → List ℕ → List ℕ → List ℕ
pushed regs [] vs = vs
pushed regs (r ∷ rs) vs = pushed regs rs (regs r ∷ vs)

abbrev pub push_all : List ℕ → List Instruction
push_all [] = []
push_all (r ∷ rs) = push r ∷ push_all rs

abbrev pub pop_all : List ℕ → List Instruction
pop_all [] = []
pop_all (r ∷ rs) = pop r ∷ pop_all rs

-- No register of a list is the stack pointer.
abbrev pub Plain : List ℕ → Type 0
Plain [] = Unit
Plain (r ∷ rs) = (r ≢ Reg.rsp) × Plain rs

-- Pushes of other registers than rsp: where the stack is, what it holds, and what is kept.
pub record Pushed (rs vs : List ℕ) (p : ℕ) (s t : Machine) : Type 0 where
  pub top : t.regs Reg.rsp + 8 * length rs ≡ p
  pub holds : Holds t.memory (t.regs Reg.rsp) (pushed s.regs rs vs)
  pub kept : (r : ℕ) → r ≢ Reg.rsp → t.regs r ≡ s.regs r
  pub above : (x : ℕ) → p ≤ x → t.memory x ≡ s.memory x
  pub below : (x : ℕ) → x < t.regs Reg.rsp → t.memory x ≡ s.memory x

pushed-cong :
    (f g : ℕ → ℕ) (rs vs : List ℕ)
    → Plain rs
    → ((r : ℕ) → r ≢ Reg.rsp → f r ≡ g r)
    → pushed f rs vs ≡ pushed g rs vs
pushed-cong f g [] vs plain same = refl
pushed-cong f g (r ∷ rs) vs (here, rest) same =
    rw (same r here) (pushed-cong f g rs (g r ∷ vs) rest same)

-- The pops of a list of values into a list of registers.
abbrev pub assign : List ℕ → List ℕ → (ℕ → ℕ) → ℕ → ℕ
assign [] vs f = f
assign (r ∷ rs) [] f = f
assign (r ∷ rs) (v ∷ vs) f = assign rs vs (update f r v)

assign-cong :
    (rs vs : List ℕ) (f g : ℕ → ℕ) (r : ℕ)
    → ((x : ℕ) → x ≢ Reg.rsp → f x ≡ g x)
    → r ≢ Reg.rsp
    → assign rs vs f r ≡ assign rs vs g r
assign-cong [] vs f g r same other = same r other
assign-cong (q ∷ rs) [] f g r same other = same r other
assign-cong (q ∷ rs) (v ∷ vs) f g r same other =
    assign-cong rs vs (update f q v) (update g q v) r (λ x n. ground (arith, same x n)) other

pub record Popped (rs vs : List ℕ) (s t : Machine) : Type 0 where
  pub top : t.regs Reg.rsp ≡ s.regs Reg.rsp + 8 * length rs
  pub values : (r : ℕ) → r ≢ Reg.rsp → t.regs r ≡ assign rs vs s.regs r
  pub memory : (x : ℕ) → t.memory x ≡ s.memory x

module _ (c_call : Machine → Machine) where
  pub push_all-Pushed :
      (rs vs : List ℕ) (s : Machine)
      → Plain rs
      → 8 * length rs ≤ s.regs Reg.rsp
      → s.regs Reg.rsp < 2 ^ 64
      → Holds s.memory (s.regs Reg.rsp) vs
      → Pushed rs vs (s.regs Reg.rsp) s (run c_call (push_all rs) s)
  unfolding run step
  push_all-Pushed [] vs s plain room word held = record {
    top = omega arith;
    holds = held;
    kept = λ r n. refl;
    above = λ x h. refl;
    below = λ x h. refl;
  }
  push_all-Pushed (r ∷ rs) vs s (here, rest) room word held =
      let p = s.regs Reg.rsp in
      let sp = (p + 2 ^ 64 - 8) % 2 ^ 64 in
      let v = s.regs r in
      let t : Machine = step c_call (push r) s in
      let down : sp + 8 ≡ p = omega (arith, room, word) in
      let held' : Holds (update s.memory sp v) (sp + 8) vs =
        rw down (
          Holds-frame s.memory (update s.memory sp v) p vs (λ x le lt. ground (arith, down))
            held) in
      let i =
        push_all-Pushed rs (v ∷ vs) t rest (omega (arith, room, down)) (omega (arith, word, down))
          (ground arith, held') in
      record {
        top = omega (arith, i.top, down);
        holds =
            subst
              (λ l.
                Holds (run c_call (push_all rs) t).memory
                  ((run c_call (push_all rs) t).regs Reg.rsp) l)
              (pushed-cong t.regs s.regs rs (v ∷ vs) rest (λ x n. ground arith)) i.holds;
        kept = λ x n. i.kept x n ∙ ground arith;
        above = λ x le. i.above x (omega (arith, le, down)) ∙ ground (arith, down);
        below = λ x lt. i.below x lt ∙ ground (arith, i.top);
      }

  pub pop_all-Popped :
      (rs vs : List ℕ) (s : Machine)
      → Plain rs
      → length rs ≡ length vs
      → s.regs Reg.rsp + 8 * length rs < 2 ^ 64
      → Holds s.memory (s.regs Reg.rsp) vs
      → Popped rs vs s (run c_call (pop_all rs) s)
  unfolding run step
  pop_all-Popped [] vs s plain e word held = record {
    top = omega arith;
    values = λ r n. refl;
    memory = λ x. refl;
  }
  pop_all-Popped (r ∷ rs) [] s plain e word held = absurd (omega (arith, e))
  pop_all-Popped (r ∷ rs) (v ∷ vs) s (here, rest) e word (first, held) =
      let p = s.regs Reg.rsp in
      let t : Machine = step c_call (pop r) s in
      let up : (p + 8) % 2 ^ 64 ≡ p + 8 = omega (arith, word) in
      let other : (Reg.rsp == r) ≡ false = ground (arith, here) in
      let top : t.regs Reg.rsp ≡ p + 8 = rw other up in
      let i =
        pop_all-Popped rs vs t rest (omega (arith, e)) (omega (arith, word, top)) (rw top held) in
      record {
        top = omega (arith, i.top, top);
        values = λ x n.
            i.values x n
            ∙ assign-cong rs vs t.regs (update s.regs r v) x (λ y m. ground (arith, first)) n;
        memory = i.memory;
      }
