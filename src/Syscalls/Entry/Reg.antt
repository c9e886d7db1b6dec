-- ===== src/Syscalls/Entry/Reg.antt =====
-- The numbers by which x86-64 encodes the registers that have a name of their own; r8 to r15 are
-- 8 to 15.
use mirus.Base.{ℕ}

abbrev pub rax : ℕ
rax = 0

abbrev pub rcx : ℕ
rcx = 1

abbrev pub rdx : ℕ
rdx = 2

abbrev pub rbx : ℕ
rbx = 3

abbrev pub rsp : ℕ
rsp = 4

abbrev pub rbp : ℕ
rbp = 5

abbrev pub rsi : ℕ
rsi = 6

abbrev pub rdi : ℕ
rdi = 7
