-- ===== src/Syscalls/Dispatch.antt =====
-- What the dispatcher and the argument check of kernel/core/syscalls.c do on every input.
use mirus.Base.{
  ℕ, ◌+◌, ◌^◌, ◌<◌, ◌≡◌, refl, ◌↔◌, Bool, true, ◌&&◌, List, [], ◌∷◌, arith, leb, ◌==◌,
  if◌then◌else◌,
}
use mirus.Base.Int.{pos}
use mirus.Syscalls.{
  SystemCallArgs, SystemCallArgType, arg_int, arg_uint, arg_ptr, arg_size, other, validate_type,
  validate_from, validate_args, syscall_handler, returned, success, invalid_syscall, invalid_args,
  to_int64,
}

-- What the check promises: every type is known, and an argument that is a size is not zero.
abbrev pub ValidArg : SystemCallArgType → ℕ → Type 0
ValidArg arg_int v = Unit
ValidArg arg_uint v = Unit
ValidArg arg_ptr v = Unit
ValidArg arg_size v = 0 < v
ValidArg other v = ⊥

abbrev pub ValidFrom : SystemCallArgs → ℕ → List SystemCallArgType → Type 0
ValidFrom args i [] = Unit
ValidFrom args i (t ∷ ts) = ValidArg t (args i) × ValidFrom args (i + 1) ts

validate_type_iff : (t : SystemCallArgType) (v : ℕ) → (validate_type t v ≡ true) ↔ ValidArg t v
unfolding validate_type
validate_type_iff arg_int v = (λ _. tt, λ _. refl)
validate_type_iff arg_uint v = (λ _. tt, λ _. refl)
validate_type_iff arg_ptr v = (λ _. tt, λ _. refl)
validate_type_iff arg_size v = (ground arith, ground arith)
validate_type_iff other v = (λ e. cc e, λ e. absurd e)

validate_from_iff :
    (args : SystemCallArgs) (i : ℕ) (ts : List SystemCallArgType)
    → (validate_from args i ts ≡ true) ↔ ValidFrom args i ts
unfolding validate_from
validate_from_iff args i [] = (λ _. tt, λ _. refl)
validate_from_iff args i (t ∷ ts) =
    let first = validate_type_iff t (args i) in
    let rest = validate_from_iff args (i + 1) ts in
    (
      λ e. (first.0 (ground arith), rest.0 (ground arith)),
      λ v. and_true (first.1 (v.0)) (rest.1 (v.1)),
    )
  where
    and_true : {a b : Bool} → a ≡ true → b ≡ true → (a && b) ≡ true
    and_true p q = rw (p, q)

-- The argument check accepts a list of types exactly when each is known and every argument whose
-- type is a size is not zero.
pub validate_args_iff :
    (args : SystemCallArgs) (types : List SystemCallArgType)
    → (validate_args args types ≡ true) ↔ ValidFrom args 0 types
unfolding validate_args
validate_args_iff args types = validate_from_iff args 0 types

-- The dispatcher's answer to every number and arguments: an invalid call at 2 and above, an
-- argument error where the third argument is zero, and else the third argument as a signed word.
pub syscall_handler_lem :
    (number : ℕ) (args : SystemCallArgs)
    → syscall_handler number args ≡ (
        if leb 2 number
        then returned (pos 0) invalid_syscall
        else if args 2 == 0
        then returned (pos 0) invalid_args
        else returned (to_int64 (args 2)) success)
unfolding syscall_handler
syscall_handler_lem number args = ground arith

-- A call that succeeds returns the count that it was given, as a number that is not negative,
-- exactly if that count is below 2 ^ 63.
pub syscall_handler_count :
    (number : ℕ) (args : SystemCallArgs)
    → (syscall_handler number args).error ≡ success
    → ((syscall_handler number args).value ≡ pos (args 2)) ↔ (args 2 < 2 ^ 63)
unfolding syscall_handler
syscall_handler_count number args ok = (ground arith, ground arith)
