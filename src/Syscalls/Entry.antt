-- ===== src/Syscalls/Entry.antt =====
-- `syscall_entry` of kernel/core/syscalls.c and `jump_to_usermode` of kernel/core/process.c, the
-- two blocks of assembly around user mode, on a machine of registers and memory. Registers have
-- the numbers of their encoding; memory gives the quadword at each address. The call of C code is
-- an argument. `sysretq` takes the address and the flags from rcx and r11; the processor's mask of
-- reserved flags is left out.
pub mod Reg
pub mod Stack
pub mod Switched
pub mod Return
mod Tests
use mirus.Base.{ℕ, ◌+◌, ◌-◌, ◌%◌, ◌^◌, List, [], ◌∷◌, ◌==◌, if◌then◌else◌, update}
use mirus.Syscalls.Entry.Reg

pub record Machine : Type 0 where
  pub regs : ℕ → ℕ
  pub rip : ℕ
  pub rflags : ℕ
  pub memory : ℕ → ℕ

pub data Instruction : Type 0 where
  push pop : ℕ → Instruction
  mov : (to from : ℕ) → Instruction
  mov_value : (to value : ℕ) → Instruction
  call sysretq : Instruction

abbrev pub set_reg : (r v : ℕ) → Machine → Machine
set_reg r v s = record s { regs = update s.regs r v }

module _ (c_call : Machine → Machine) where
  pub step : Instruction → Machine → Machine
  step (push r) s =
      let sp = (s.regs Reg.rsp + 2 ^ 64 - 8) % 2 ^ 64 in
      record s { regs = update s.regs Reg.rsp sp; memory = update s.memory sp (s.regs r) }
  step (pop r) s =
      set_reg r (s.memory (s.regs Reg.rsp)) (set_reg Reg.rsp ((s.regs Reg.rsp + 8) % 2 ^ 64) s)
  step (mov to from) s = set_reg to (s.regs from) s
  step (mov_value to value) s = set_reg to value s
  step call s = c_call s
  step sysretq s = record s { rip = s.regs Reg.rcx; rflags = s.regs 11 }

  pub run : List Instruction → Machine → Machine
  unfolding step
  run [] s = s
  run (i ∷ is) s = run is (step i s)

-- The switch to the kernel stack. `operand` is the register that the compiler takes for the input of
-- the block: `get_kernel_stack_ptr` is inlined before the block and loads rsp into it.
abbrev pub entry_switch : (operand : ℕ) → List Instruction
entry_switch operand = mov operand Reg.rsp ∷ mov 10 Reg.rsp ∷ mov Reg.rsp operand ∷ []

-- the pushes, in their order
abbrev pub entry_pushes : List Instruction
entry_pushes =
    push 11
    ∷ push Reg.rcx
    ∷ push 10
    ∷ push Reg.rax
    ∷ push Reg.rdi
    ∷ push Reg.rsi
    ∷ push Reg.rdx
    ∷ push 10
    ∷ push 8
    ∷ push 9
    ∷ push Reg.rbx
    ∷ push Reg.rbp
    ∷ push 12
    ∷ push 13
    ∷ push 14
    ∷ push 15
    ∷ []

-- the pops of general registers
abbrev pub entry_pops : List Instruction
entry_pops =
    pop 15
    ∷ pop 14
    ∷ pop 13
    ∷ pop 12
    ∷ pop Reg.rbp
    ∷ pop Reg.rbx
    ∷ pop 9
    ∷ pop 8
    ∷ pop 10
    ∷ pop Reg.rdx
    ∷ pop Reg.rsi
    ∷ pop Reg.rdi
    ∷ pop Reg.rax
    ∷ []

abbrev pub entry_return : List Instruction
entry_return = pop Reg.rsp ∷ pop Reg.rcx ∷ pop 11 ∷ sysretq ∷ []

-- the state in which the C handler is called
pub at_call : (c_call : Machine → Machine) (operand : ℕ) → Machine → Machine
unfolding run
at_call c_call operand s =
    let saved = run c_call entry_pushes (run c_call (entry_switch operand) s) in
    run c_call (mov Reg.rdi Reg.rsp ∷ []) saved

pub syscall_entry : (c_call : Machine → Machine) (operand : ℕ) → Machine → Machine
unfolding run at_call
syscall_entry c_call operand s =
    let called = run c_call (call ∷ []) (at_call c_call operand s) in
    run c_call entry_return (run c_call entry_pops called)

pub jump_to_usermode :
    (c_call : Machine → Machine) (user_function user_stack : ℕ) → Machine → Machine
unfolding run
jump_to_usermode c_call user_function user_stack s =
    run c_call
      (mov_value Reg.rcx user_function
        ∷ mov_value Reg.rsp user_stack
        ∷ mov_value 11 0x202
        ∷ sysretq
        ∷ [])
      s
