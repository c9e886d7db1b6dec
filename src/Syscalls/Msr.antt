-- ===== src/Syscalls/Msr.antt =====
-- `syscalls_initialize` of kernel/core/syscalls.c: the model specific registers that it writes.
-- The prefetch of the table and the log calls change no state.
use mirus.Base.{ℕ, ◌+◌, ◌*◌, ◌/◌, ◌%◌, ◌^◌, ◌≡◌, refl, arith, update}
use Prim.Native.Nat.{bit_or}
use mirus.Gdt.{GdtState, gdt_initialize, access_user_code, access_user_data}

abbrev pub msr_star : ℕ
msr_star = 0xC0000081

abbrev pub msr_lstar : ℕ
msr_lstar = 0xC0000082

abbrev pub msr_sfmask : ℕ
msr_sfmask = 0xC0000084

abbrev pub msr_efer : ℕ
msr_efer = 0xC0000080

-- `wrmsr` takes the low and the high word apart.
abbrev pub wrmsr : (register low high : ℕ) → (ℕ → ℕ) → ℕ → ℕ
wrmsr register low high msr = update msr register (low + high * 2 ^ 32)

-- `entry` is the address of `syscall_entry`. In 64-bit code the constraint "A" is one register, so
-- `rdmsr` gives the low word of EFER, and `edx` is what is left in the other register.
pub syscalls_initialize : (entry edx : ℕ) → (ℕ → ℕ) → ℕ → ℕ
syscalls_initialize entry edx msr =
    let star : ℕ = 0x0013000800000000 in
    let m1 = wrmsr msr_star (star % 2 ^ 32) (star / 2 ^ 32) msr in
    let m2 = wrmsr msr_lstar (entry % 2 ^ 32) (entry / 2 ^ 32) m1 in
    let m3 = wrmsr msr_sfmask (0x200 % 2 ^ 32) (0x200 / 2 ^ 32) m2 in
    let efer = bit_or (m3 msr_efer % 2 ^ 32) 1 in wrmsr msr_efer efer edx m3

-- Where `sysret` to 64-bit code takes its selectors from, as entries of the segment table.
abbrev pub sysret_code_entry : (ℕ → ℕ) → ℕ
sysret_code_entry msr = (msr msr_star / 2 ^ 48 + 16) / 8

abbrev pub sysret_stack_entry : (ℕ → ℕ) → ℕ
sysret_stack_entry msr = (msr msr_star / 2 ^ 48 + 8) / 8

-- After `gdt_initialize` and `syscalls_initialize`, a system call enters at `entry` with interrupts
-- masked; but a return by `sysret` takes the user's data segment for its code, and the user's code
-- segment for its stack.
pub syscalls_initialize-gdt_initialize :
    (entry edx kernel_stack_ptr tss_base : ℕ) (msr : ℕ → ℕ) (s : GdtState)
    → (syscalls_initialize entry edx msr msr_lstar ≡ entry)
      × (syscalls_initialize entry edx msr msr_sfmask ≡ 0x200)
      × (((gdt_initialize kernel_stack_ptr tss_base s).gdt
            (sysret_code_entry (syscalls_initialize entry edx msr))).access
          ≡ access_user_data)
      × (((gdt_initialize kernel_stack_ptr tss_base s).gdt
            (sysret_stack_entry (syscalls_initialize entry edx msr))).access
          ≡ access_user_code)
unfolding syscalls_initialize gdt_initialize
syscalls_initialize-gdt_initialize entry edx kernel_stack_ptr tss_base msr s =
    (omega arith, refl, refl, refl)
