-- ===== src/Syscalls/Entry/Return.antt =====
-- What a system call through `syscall_entry` of kernel/core/syscalls.c returns to.
use mirus.Base.{ℕ, ◌-◌, ◌%◌, ◌^◌, ◌≤◌, ◌<◌, ◌≡◌, ◌≢◌, refl, arith, leb, true}
use mirus.Base.Int.{pos}
use mirus.Syscalls.{SystemCallArgs, syscall_count, syscall_handler, returned, invalid_syscall}
use mirus.Syscalls.Entry.Reg
use mirus.Syscalls.Entry.{Machine, run, step, at_call, jump_to_usermode}
use mirus.Syscalls.Entry.Switched.{loaded, at_call_on, at_call_rsp, at_call-rdi, at_call-loaded}

-- The number that the handler reads from edi is the low half of the stack pointer after the pushes,
-- if the operand's register is neither rsp nor r10. Whatever number the user has in rax, the handler
-- answers that the call is invalid, unless that half is 0 or 1.
pub syscall_entry_number :
    (c_call : Machine → Machine) (operand : ℕ) (s : Machine) (args : SystemCallArgs)
    → operand ≢ Reg.rsp
    → operand ≢ 10
    → 128 ≤ s.regs Reg.rsp
    → s.regs Reg.rsp < 2 ^ 64
    → 2 ≤ (s.regs Reg.rsp - 128) % 2 ^ 32
    → syscall_handler ((at_call c_call operand s).regs Reg.rdi % 2 ^ 32) args
      ≡ returned (pos 0) invalid_syscall
unfolding syscall_handler
syscall_entry_number c_call operand s args not_rsp apart room word far =
    let stack = s.regs Reg.rsp in
    let t = loaded operand s in
    let sp = at_call_rsp c_call stack t room word in
    let rdi = at_call-rdi c_call stack t room word in
    let e : (at_call_on c_call stack t).regs Reg.rdi ≡ stack - 128 = omega (arith, sp, rdi) in
    let l : leb syscall_count ((stack - 128) % 2 ^ 32) ≡ true = ground (arith, far) in
    rw (at_call-loaded c_call operand s apart, e, l) refl

-- `sysretq` after the three moves starts the function on its stack with interrupts enabled.
pub jump_to_usermode_lem :
    (c_call : Machine → Machine) (user_function user_stack : ℕ) (s : Machine)
    → ((jump_to_usermode c_call user_function user_stack s).rip ≡ user_function)
      × ((jump_to_usermode c_call user_function user_stack s).regs Reg.rsp ≡ user_stack)
      × ((jump_to_usermode c_call user_function user_stack s).rflags ≡ 0x202)
unfolding jump_to_usermode run step
jump_to_usermode_lem c_call user_function user_stack s = (refl, refl, refl)
