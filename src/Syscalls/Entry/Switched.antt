-- ===== src/Syscalls/Entry/Switched.antt =====
-- The pushes and pops of `syscall_entry` of kernel/core/syscalls.c around a C handler, on the stack
-- that the switch leads to.
use mirus.Base.{ap, ℕ, ◌+◌, ◌%◌, ◌^◌, ◌≤◌, ◌<◌, ◌≡◌, ◌≢◌, refl, ◌∙◌, arith, List, [], ◌∷◌, ◌++◌}
use mirus.Syscalls.Entry.Reg
use mirus.Syscalls.Entry.{
  Instruction, Machine, mov, mov_value, call, set_reg, step, run, entry_switch, entry_pushes,
  entry_pops, entry_return, at_call, syscall_entry,
}
use mirus.Syscalls.Entry.Stack.{
  Holds, Holds-frame, Holds-append, Pushed, push_all-Pushed, Popped, pop_all-Popped, assign,
}

-- The calling convention: a call keeps the stack pointer, the registers that belong to the caller,
-- and what the caller has on the stack below its start.
pub record Conforms (stack : ℕ) (c_call : Machine → Machine) : Type 0 where
  pub rsp : (s : Machine) → (c_call s).regs Reg.rsp ≡ s.regs Reg.rsp
  pub frame :
      (s : Machine) (x : ℕ) → s.regs Reg.rsp ≤ x → x < stack → (c_call s).memory x ≡ s.memory x

abbrev saved_registers : List ℕ
saved_registers =
    11 ∷ Reg.rcx ∷ 10 ∷ Reg.rax ∷ Reg.rdi ∷ Reg.rsi ∷ Reg.rdx ∷ 10 ∷ 8 ∷ 9 ∷ Reg.rbx ∷ Reg.rbp ∷ 12
    ∷ 13 ∷ 14 ∷ 15 ∷ []

abbrev restored_registers : List ℕ
restored_registers =
    15 ∷ 14 ∷ 13 ∷ 12 ∷ Reg.rbp ∷ Reg.rbx ∷ 9 ∷ 8 ∷ 10 ∷ Reg.rdx ∷ Reg.rsi ∷ Reg.rdi ∷ Reg.rax ∷ []

-- every general register but rsp, rcx, r10 and r11
abbrev pub kept_registers : List ℕ
kept_registers =
    Reg.rax ∷ Reg.rdx ∷ Reg.rbx ∷ Reg.rbp ∷ Reg.rsi ∷ Reg.rdi ∷ 8 ∷ 9 ∷ 12 ∷ 13 ∷ 14 ∷ 15 ∷ []

-- Two register files agree on these registers.
abbrev pub Agree : List ℕ → (ℕ → ℕ) → (ℕ → ℕ) → Type 0
Agree [] f g = Unit
Agree (r ∷ rs) f g = (f r ≡ g r) × Agree rs f g

-- None of these registers is one that the return itself sets.
abbrev Apart : List ℕ → Type 0
Apart [] = Unit
Apart (r ∷ rs) = ((r ≢ Reg.rsp) × (r ≢ Reg.rcx) × (r ≢ 11)) × Apart rs

-- the values on the stack at the call, for registers as they were before the switch
abbrev saved_values : (ℕ → ℕ) → List ℕ
saved_values regs =
    regs 15
    ∷ regs 14
    ∷ regs 13
    ∷ regs 12
    ∷ regs Reg.rbp
    ∷ regs Reg.rbx
    ∷ regs 9
    ∷ regs 8
    ∷ regs Reg.rsp
    ∷ regs Reg.rdx
    ∷ regs Reg.rsi
    ∷ regs Reg.rdi
    ∷ regs Reg.rax
    ∷ []

-- The end of `syscall_entry`: rsp comes from the kernel stack, the rest from where rsp then points.
pub record Returned (u : ℕ) (s t : Machine) : Type 0 where
  pub rip : t.rip ≡ s.memory u
  pub rflags : t.rflags ≡ s.memory ((u + 8) % 2 ^ 64)
  pub rsp : t.regs Reg.rsp ≡ (u + 16) % 2 ^ 64
  pub others : (r : ℕ) → r ≢ Reg.rsp → r ≢ Reg.rcx → r ≢ 11 → t.regs r ≡ s.regs r
  pub memory : (x : ℕ) → t.memory x ≡ s.memory x

entry_return-Returned :
    (c_call : Machine → Machine) (s : Machine) (u : ℕ)
    → s.memory (s.regs Reg.rsp) ≡ u
    → Returned u s (run c_call entry_return s)
unfolding run step
entry_return-Returned c_call s u e = record {
  rip = rw e refl;
  rflags = rw e refl;
  rsp = rw e (omega arith);
  others = λ r a b c. ground arith;
  memory = λ x. refl;
}

-- the switch to a stack at a known address
abbrev switch_to : (stack : ℕ) → List Instruction
switch_to stack = mov 10 Reg.rsp ∷ mov_value Reg.rsp stack ∷ []

abbrev call_from : (c_call : Machine → Machine) → Machine → Machine
call_from c_call s = run c_call (mov Reg.rdi Reg.rsp ∷ []) (run c_call entry_pushes s)

abbrev entry_from : (c_call : Machine → Machine) → Machine → Machine
entry_from c_call s =
    run c_call entry_return (run c_call entry_pops (run c_call (call ∷ []) (call_from c_call s)))

abbrev pub at_call_on : (c_call : Machine → Machine) (stack : ℕ) → Machine → Machine
at_call_on c_call stack s = call_from c_call (run c_call (switch_to stack) s)

abbrev pub entry_on : (c_call : Machine → Machine) (stack : ℕ) → Machine → Machine
entry_on c_call stack s = entry_from c_call (run c_call (switch_to stack) s)

module _ (c_call : Machine → Machine) (stack : ℕ) (s : Machine) (room : 128 ≤ stack)
    (word : stack < 2 ^ 64) where
  switched-Pushed :
      Pushed saved_registers [] stack
        (run c_call (switch_to stack) s)
        (run c_call entry_pushes (run c_call (switch_to stack) s))
  unfolding run step
  switched-Pushed =
      push_all-Pushed c_call saved_registers [] (run c_call (switch_to stack) s) (omega arith)
        (omega (arith, room)) word tt

  pub at_call_rsp : (at_call_on c_call stack s).regs Reg.rsp + 128 ≡ stack
  unfolding run step
  at_call_rsp = omega (arith, switched-Pushed.top)

  pub at_call-rdi :
      (at_call_on c_call stack s).regs Reg.rdi ≡ (at_call_on c_call stack s).regs Reg.rsp
  unfolding run step
  at_call-rdi = refl

  at_call-Holds :
      Holds
        (at_call_on c_call stack s).memory
        ((at_call_on c_call stack s).regs Reg.rsp)
        (saved_values s.regs ++ s.regs Reg.rsp ∷ s.regs Reg.rcx ∷ s.regs 11 ∷ [])
  unfolding run step
  at_call-Holds = switched-Pushed.holds

  module _ (convention : Conforms stack c_call) where
    called-Holds :
        Holds
          (c_call (at_call_on c_call stack s)).memory
          ((at_call_on c_call stack s).regs Reg.rsp)
          (saved_values s.regs ++ s.regs Reg.rsp ∷ s.regs Reg.rcx ∷ s.regs 11 ∷ [])
    called-Holds =
        let a = at_call_on c_call stack s in
        let vs = saved_values s.regs ++ s.regs Reg.rsp ∷ s.regs Reg.rcx ∷ s.regs 11 ∷ [] in
        Holds-frame a.memory (c_call a).memory (a.regs Reg.rsp) vs
          (λ x le lt. convention.frame a x le (omega (arith, lt, at_call_rsp))) at_call-Holds

    -- the saved registers on the stack after the call, then what is left of it
    called-parts :
        Holds
          (c_call (at_call_on c_call stack s)).memory
          ((at_call_on c_call stack s).regs Reg.rsp)
          (saved_values s.regs)
        × Holds
            (c_call (at_call_on c_call stack s)).memory
            ((at_call_on c_call stack s).regs Reg.rsp + 104)
            (s.regs Reg.rsp ∷ s.regs Reg.rcx ∷ s.regs 11 ∷ [])
    called-parts =
        let a = at_call_on c_call stack s in
        Holds-append (c_call a).memory (a.regs Reg.rsp) (saved_values s.regs)
          (s.regs Reg.rsp ∷ s.regs Reg.rcx ∷ s.regs 11 ∷ []) called-Holds

    pub after_pops : Machine
    after_pops = run c_call entry_pops (c_call (at_call_on c_call stack s))

    pub after_pops-Popped :
        Popped restored_registers
          (saved_values s.regs)
          (c_call (at_call_on c_call stack s))
          after_pops
    unfolding after_pops
    after_pops-Popped =
        let a = at_call_on c_call stack s in
        let r = convention.rsp a in
        pop_all-Popped c_call restored_registers (saved_values s.regs) (c_call a) (omega arith) refl
          (omega (arith, r, at_call_rsp, word)) (rw r (called-parts.0))

    -- the quadword that `popq %rsp` takes
    after_pops_top : after_pops.memory (after_pops.regs Reg.rsp) ≡ s.regs Reg.rsp
    after_pops_top =
        let a = at_call_on c_call stack s in
        let e : after_pops.regs Reg.rsp ≡ a.regs Reg.rsp + 104 =
          omega (arith, after_pops-Popped.top, convention.rsp a) in
        rw (after_pops-Popped.memory (after_pops.regs Reg.rsp), e) (called-parts.1.0)

    pub syscall_entry_end : Returned (s.regs Reg.rsp) after_pops (entry_on c_call stack s)
    unfolding run step after_pops
    syscall_entry_end = entry_return-Returned c_call after_pops (s.regs Reg.rsp) after_pops_top

    pub restored :
        (r : ℕ)
        → r ≢ Reg.rsp
        → r ≢ Reg.rcx
        → r ≢ 11
        → (entry_on c_call stack s).regs r
          ≡ assign restored_registers
              (saved_values s.regs)
              (c_call (at_call_on c_call stack s)).regs
              r
    restored r a b c = syscall_entry_end.others r a b c ∙ after_pops-Popped.values r a

    pub restored_all :
        (rs : List ℕ)
        → Apart rs
        → Agree rs (entry_on c_call stack s).regs (
            assign restored_registers
              (saved_values s.regs)
              (c_call (at_call_on c_call stack s)).regs)
    restored_all [] apart = tt
    restored_all (r ∷ rs) ((a, b, c), rest) = (restored r a b c, restored_all rs rest)

-- the machine once `get_kernel_stack_ptr` has loaded the operand's register
abbrev pub loaded : (operand : ℕ) → Machine → Machine
loaded operand s = set_reg operand (s.regs Reg.rsp) s

-- The switch leads back to the stack on which the system call arrives.
entry_switch_lem :
    (c_call : Machine → Machine) (operand : ℕ) (s : Machine)
    → operand ≢ 10
    → run c_call (entry_switch operand) s
      ≡ run c_call (switch_to (s.regs Reg.rsp)) (loaded operand s)
unfolding run step
entry_switch_lem c_call operand s apart =
    let t = loaded operand s in
    let u = set_reg 10 (t.regs Reg.rsp) t in
    let e : u.regs operand ≡ s.regs Reg.rsp = ground (arith, apart) in
    ap (λ v. set_reg Reg.rsp v u) e

pub at_call-loaded :
    (c_call : Machine → Machine) (operand : ℕ) (s : Machine)
    → operand ≢ 10
    → at_call c_call operand s ≡ at_call_on c_call (s.regs Reg.rsp) (loaded operand s)
unfolding at_call
at_call-loaded c_call operand s apart =
    ap (call_from c_call) (entry_switch_lem c_call operand s apart)

pub syscall_entry-loaded :
    (c_call : Machine → Machine) (operand : ℕ) (s : Machine)
    → operand ≢ 10
    → syscall_entry c_call operand s ≡ entry_on c_call (s.regs Reg.rsp) (loaded operand s)
unfolding syscall_entry at_call
syscall_entry-loaded c_call operand s apart =
    ap (entry_from c_call) (entry_switch_lem c_call operand s apart)
