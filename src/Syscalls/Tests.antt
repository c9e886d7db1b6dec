-- ===== src/Syscalls/Tests.antt =====
-- The system calls at concrete arguments, as `debug_test_syscalls` makes them.
use mirus.Base.{◌≡◌, ◌↔◌, ◌^◌, ◌<◌, refl, true, [], ◌∷◌, ◌==◌, if◌then◌else◌}
use mirus.Base.Int.{pos, negsuc}
use mirus.Syscalls.{
  SystemCallArgs, arg_int, arg_ptr, arg_size, validate_args, syscall_handler, returned, success,
  error_code,
}
use mirus.Syscalls.Dispatch.{
  ValidFrom, validate_args_iff, syscall_handler_lem, syscall_handler_count,
}
use mirus.Syscalls.Msr.{
  msr_lstar, msr_sfmask, sysret_code_entry, sysret_stack_entry, syscalls_initialize,
  syscalls_initialize-gdt_initialize,
}
use mirus.Gdt.{GdtState, gdt_initialize, access_user_code, access_user_data}

-- a file descriptor, a buffer and twenty bytes
abbrev hello : SystemCallArgs
hello i = if i == 0 then 1 else if i == 1 then 0x8000 else if i == 2 then 20 else 0

write_hello : syscall_handler 1 hello ≡ returned (pos 20) success
unfolding syscall_handler
write_hello = refl

unknown_call : error_code (syscall_handler 15 hello).error ≡ negsuc 0
unfolding syscall_handler error_code
unknown_call = refl

validate_args_iff_example :
    (validate_args hello (arg_int ∷ arg_ptr ∷ arg_size ∷ []) ≡ true)
    ↔ ValidFrom hello 0 (arg_int ∷ arg_ptr ∷ arg_size ∷ [])
validate_args_iff_example = validate_args_iff hello (arg_int ∷ arg_ptr ∷ arg_size ∷ [])

syscall_handler_lem_example : syscall_handler 0 hello ≡ returned (pos 20) success
syscall_handler_lem_example = syscall_handler_lem 0 hello

twenty_bytes : ((syscall_handler 1 hello).value ≡ pos 20) ↔ (20 < 2 ^ 63)
unfolding syscall_handler
twenty_bytes = syscall_handler_count 1 hello refl

abbrev no_segments : GdtState
no_segments = record {
  gdt = λ i. record {
    limit_low = 0;
    base_low = 0;
    base_middle = 0;
    access = 0;
    limit_high_flags = 0;
    base_high = 0;
  };
  tss_rsp0 = 0;
  tss_iomap_base = 0;
}

syscalls_initialize-gdt_initialize_example :
    (syscalls_initialize 0x5000 0 (λ r. 0) msr_lstar ≡ 0x5000)
    × (syscalls_initialize 0x5000 0 (λ r. 0) msr_sfmask ≡ 0x200)
    × (((gdt_initialize 0x9000 0x123456789ABC no_segments).gdt
          (sysret_code_entry (syscalls_initialize 0x5000 0 (λ r. 0)))).access
        ≡ access_user_data)
    × (((gdt_initialize 0x9000 0x123456789ABC no_segments).gdt
          (sysret_stack_entry (syscalls_initialize 0x5000 0 (λ r. 0)))).access
        ≡ access_user_code)
syscalls_initialize-gdt_initialize_example =
    syscalls_initialize-gdt_initialize 0x5000 0 0x9000 0x123456789ABC (λ r. 0) no_segments
