-- ===== src/Syscalls.antt =====
-- kernel/core/syscalls.c and kernel/include/kernel/syscalls.h: the system call table, the argument
-- check and the dispatcher. The log calls under `DEBUG` change no state and are in Logged.antt.
pub mod Dispatch
pub mod Msr
pub mod Entry
pub mod Format
pub mod Logged
mod Tests
use mirus.Base.{
  ℕ, zero, suc, ◌+◌, ◌-◌, ◌%◌, ◌^◌, ◌<◌, Bool, true, false, ◌&&◌, ◌||◌, Option, none, some, List,
  [], ◌∷◌, ltb, leb, ◌==◌, if◌then◌else◌,
}
use mirus.Base.Int.{ℤ, pos, negsuc}
use Prim.Native.String.{String}

abbrev pub syscall_count : ℕ
syscall_count = 2

-- the enumerators of `SystemCallNumber`
abbrev pub syscall_read_number : ℕ
syscall_read_number = 0

abbrev pub syscall_write_number : ℕ
syscall_write_number = 1

pub data SystemCallError : Type 0 where
  success invalid_syscall invalid_args permission_denied not_implemented : SystemCallError

-- the C value of an error
unfoldable pub error_code : SystemCallError → ℤ
error_code success = pos 0
error_code invalid_syscall = negsuc 0
error_code invalid_args = negsuc 1
error_code permission_denied = negsuc 2
error_code not_implemented = negsuc 3

-- `uint64_t args[6]`: the argument at each index
abbrev pub SystemCallArgs : Type 0
SystemCallArgs = ℕ → ℕ

-- `other` is any value that is no enumerator, which `va_arg` may still deliver.
pub data SystemCallArgType : Type 0 where
  arg_int arg_uint arg_ptr arg_size other : SystemCallArgType

pub record SystemCallReturn : Type 0 where
  pub value : ℤ
  pub error : SystemCallError

abbrev pub returned : ℤ → SystemCallError → SystemCallReturn
returned v e = record { value = v; error = e }

-- the `switch` of `syscall_validate_args`
validate_type : SystemCallArgType → ℕ → Bool
validate_type arg_int v = true
validate_type arg_uint v = true
validate_type arg_ptr v = true
validate_type arg_size v = ltb 0 v
validate_type other v = false

-- The loop of `syscall_validate_args`: the types that are left, and the index of the first.
validate_from : SystemCallArgs → ℕ → List SystemCallArgType → Bool
validate_from args i [] = true
validate_from args i (t ∷ ts) = validate_type t (args i) && validate_from args (i + 1) ts

-- The variadic types as a list, which gives `num_args` by its length.
pub validate_args : SystemCallArgs → List SystemCallArgType → Bool
unfolding validate_from validate_type
validate_args args types = validate_from args 0 types

-- `(int64_t)` of a 64-bit word
abbrev pub to_int64 : ℕ → ℤ
to_int64 v = if ltb v (2 ^ 63) then pos v else negsuc (2 ^ 64 - v - 1)

-- Both handlers check their arguments and hand the count back.
pub syscall_read : SystemCallArgs → SystemCallReturn
unfolding validate_args
syscall_read args =
    if validate_args args (arg_int ∷ arg_ptr ∷ arg_size ∷ [])
    then returned (to_int64 (args 2)) success
    else returned (pos 0) invalid_args

pub syscall_write : SystemCallArgs → SystemCallReturn
unfolding validate_args
syscall_write args =
    if validate_args args (arg_int ∷ arg_ptr ∷ arg_size ∷ [])
    then returned (to_int64 (args 2)) success
    else returned (pos 0) invalid_args

-- `handler` is `none` where the C pointer is `NULL`.
pub record SystemCallEntry : Type 0 where
  pub handler : Option (SystemCallArgs → SystemCallReturn)
  pub name : String
  pub num_args : ℕ

-- The table at an index below `syscall_count`.
pub syscall_table : ℕ → SystemCallEntry
syscall_table number =
    if number == syscall_read_number
    then record { handler = some syscall_read; name = "read"; num_args = 3 }
    else if number == syscall_write_number
    then record { handler = some syscall_write; name = "write"; num_args = 3 }
    else record { handler = none; name = ""; num_args = 0 }

-- The dispatcher behind the table: a missing handler, too many arguments, or the call.
dispatch : SystemCallEntry → SystemCallArgs → SystemCallReturn
dispatch entry args = elim (entry.handler) [
  | none ↦ returned (pos 0) invalid_syscall
  | some handler ↦ if ltb 6 entry.num_args then returned (pos 0) invalid_args else handler args
]

-- A `SystemCallNumber` is an unsigned number in C, so only large values are out of range.
unfoldable pub syscall_handler : ℕ → SystemCallArgs → SystemCallReturn
unfolding dispatch syscall_table syscall_read syscall_write
syscall_handler number args =
    if leb syscall_count number
    then returned (pos 0) invalid_syscall
    else dispatch (syscall_table number) args
