-- ===== src/DebugTests/SystemCalls.antt =====
-- `debug_test_syscalls` of kernel/debug/debug_tests.c: what it prints.
use mirus.Base.{ℕ, List, [], ◌∷◌, ◌++◌, ◌==◌, if◌then◌else◌}
use mirus.Base.Format.{Arg, number, integer}
use mirus.Syscalls.{
  SystemCallArgs, SystemCallReturn, SystemCallError, success, error_code, syscall_write_number,
  syscall_handler,
}
use Prim.Native.String.{String}

-- `{test_fd, (uint64_t)test_str, sizeof(test_str) - 1, 0, 0, 0}`
abbrev write_args : (test_str : ℕ) → SystemCallArgs
write_args test_str i = if i == 0 then 1 else if i == 1 then test_str else if i == 2 then 20 else 0

-- what it prints about the first call
pub check_result : SystemCallReturn → SystemCallError → List (String × List Arg)
check_result result success =
    ("  Write syscall test successful!\n", [])
    ∷ ("  Bytes written: %ld (expected %zu)\n", integer result.value ∷ number 20 ∷ [])
    ∷ []
check_result result error =
    ("  Write syscall test failed with error: %d\n", integer (error_code error) ∷ []) ∷ []

-- the calls of `printf_`, in their order
unfoldable pub debug_test_syscalls : (test_str : ℕ) → List (String × List Arg)
unfolding check_result
debug_test_syscalls test_str =
    let result = syscall_handler syscall_write_number (write_args test_str) in
    let result2 = syscall_handler 15 (λ i. 0) in
    ("Running system calls test\n", [])
      ∷ ("  Trying write syscall\n", [])
      ∷ check_result result result.error
    ++ ("  Trying invalid syscall\n", [])
      ∷ ("  Invalid syscall test failed with error: %d\n", integer (error_code result2.error) ∷ [])
      ∷ ("Done running system calls test\n", [])
      ∷ []
