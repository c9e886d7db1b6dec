-- ===== src/Syscalls/Entry/Tests.antt =====
-- A system call of user code at 0x400000 with its stack at 0x7000; rax is the
-- register that holds the operand.
use mirus.Base.{◌+◌, ◌%◌, ◌^◌, ◌≡◌, refl, arith, ◌==◌, if◌then◌else◌}
use mirus.Base.Int.{pos}
use mirus.Syscalls.{syscall_handler, returned, invalid_syscall}
use mirus.Syscalls.Entry.Reg
use mirus.Syscalls.Entry.{Machine, set_reg, step, run, at_call, syscall_entry, jump_to_usermode}
use mirus.Syscalls.Entry.Return.{syscall_entry_number}

-- `write` with three arguments; the processor has put the return address and the flags in rcx and
-- r11.
abbrev user_machine : Machine
user_machine = record {
  regs = λ r.
      if r == Reg.rsp
      then 0x7000
      else if r == Reg.rcx
      then 0x400000
      else if r == 11
      then 0x202
      else if r == Reg.rax
      then 1
      else 50 + r;
  rip = 0xFFFF;
  rflags = 2;
  memory = λ a. if a == 0x7000 then 0xBAD else 0;
}

-- a handler that answers 20 in rax
abbrev answer : Machine → Machine
answer s = set_reg Reg.rax 20 s

return_address_lost : (syscall_entry answer Reg.rax user_machine).rip ≡ 0xBAD
unfolding syscall_entry run step at_call
return_address_lost = refl

-- neither the user's rax nor the answer
result_lost : (syscall_entry answer Reg.rax user_machine).regs Reg.rax ≡ 0x7000
unfolding syscall_entry run step at_call
result_lost = refl

usermode : (jump_to_usermode answer 0x400000 0x7000 user_machine).rip ≡ 0x400000
unfolding jump_to_usermode run step
usermode = refl

syscall_entry_number_example :
    syscall_handler ((at_call answer Reg.rax user_machine).regs Reg.rdi % 2 ^ 32) (λ i. 0)
    ≡ returned (pos 0) invalid_syscall
syscall_entry_number_example =
    syscall_entry_number answer Reg.rax user_machine (λ i. 0) (omega arith) (omega arith)
      (omega arith) (omega arith) (omega arith)
