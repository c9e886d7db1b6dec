-- ===== src/Interrupts.antt =====
-- `isr_handler` of kernel/core/interrupts.c: what it hands to the panic functions. The value of the
-- register cr2 is an argument. Each test of one bit,
-- `error_code & 2 ^ k`, is written by division.
pub mod Fault
mod Tests
use mirus.Base.{ℕ, ◌/◌, ◌%◌, ◌^◌, Bool, Option, none, some, ◌==◌, if◌then◌else◌}
use Prim.Native.String.{String}

-- The arguments of the page fault message, in the order in which they are passed.
pub record FaultDetail : Type 0 where
  pub fault_address : ℕ
  pub error_code : ℕ
  pub write : String
  pub user : String
  pub present : String
  pub reserved : String
  pub instruction : String

-- `kernel_panic` has a message only, `kernel_panic_detailed` the details as well.
pub record Panic : Type 0 where
  pub message : String
  pub detail : Option FaultDetail

abbrev pub bit : (k n : ℕ) → Bool
bit k n = n / 2 ^ k % 2 == 1

unfoldable pub fault_detail : (cr2 error_code : ℕ) → FaultDetail
fault_detail cr2 error_code = record {
  fault_address = cr2;
  error_code = error_code;
  write = if bit 1 error_code then "write" else "read";
  user = if bit 2 error_code then "user" else "supervisor";
  present = if bit 0 error_code then "present" else "not present";
  reserved = if bit 3 error_code then "reserved write" else "not reserved write";
  instruction = if bit 4 error_code then "instruction fetch" else "not instruction fetch";
}

abbrev pub panic : String → Panic
panic text = record { message = text; detail = none }

unfoldable pub isr_handler : (cr2 error_code interrupt_number : ℕ) → Panic
unfolding fault_detail
isr_handler cr2 error_code n =
    if n == 0
    then panic "Division by zero error"
    else if n == 1
    then panic "Debug exception"
    else if n == 2
    then panic "Non-maskable interrupt exception"
    else if n == 3
    then panic "Breakpoint exception"
    else if n == 4
    then panic "Overflow exception"
    else if n == 5
    then panic "Bound range exceeded exception"
    else if n == 6
    then panic "Invalid opcode exception"
    else if n == 7
    then panic "Device not available exception"
    else if n == 8
    then panic "Double fault exception"
    else if n == 9
    then panic "Coprocessor segment overrun exception"
    else if n == 10
    then panic "Invalid TSS exception"
    else if n == 11
    then panic "Segment not present exception"
    else if n == 12
    then panic "Stack fault exception"
    else if n == 13
    then panic "General protection fault exception"
    else if n == 14
    then record { message = "Page Fault"; detail = some (fault_detail cr2 error_code) }
    else if n == 16
    then panic "x87 Floating point exception"
    else if n == 17
    then panic "Alignment check exception"
    else if n == 18
    then panic "Machine check exception"
    else if n == 19
    then panic "SIMD Floating point exception"
    else if n == 20
    then panic "Virtualization exception"
    else if n == 21
    then panic "Control protection exception"
    else panic "Reserved exception"
