-- ===== src/Panic/Report.antt =====
-- What a panic of kernel/debug/panic.c has to show, from tables: a message for each exception, the
-- words of the frame by their place in memory, and the bits of a page fault's error code.
use mirus.Base.{
  ℕ, zero, suc, ◌/◌, ◌%◌, ◌^◌, ◌<◌, ◌≡◌, refl, ap, arith, List, [], ◌∷◌, ◌++◌, ◌==◌, if◌then◌else◌,
  Bool-cases, inl, inr,
}
use mirus.Base.Format.{codes, Arg, number, text}
use mirus.Interrupts.{fault_detail, isr_handler}
use mirus.Terminal.{Screen}
use mirus.Panic.{InterruptFrame, frame_lines, fault_format, fault_arguments}
use mirus.Panic.Shown.{lines_text, head_text, panic_text}
use Prim.Native.String as S
use Prim.Native.String.{String}

-- the text at an index of a table, or the one for what is behind it
abbrev pub pick : String → List String → ℕ → String
pick default [] n = default
pick default (s ∷ table) zero = s
pick default (s ∷ table) (suc n) = pick default table n

-- the messages of the vectors from 0 on
abbrev pub exception_messages : List String
exception_messages =
    "Division by zero error" ∷ "Debug exception" ∷ "Non-maskable interrupt exception"
    ∷ "Breakpoint exception" ∷ "Overflow exception" ∷ "Bound range exceeded exception"
    ∷ "Invalid opcode exception" ∷ "Device not available exception" ∷ "Double fault exception"
    ∷ "Coprocessor segment overrun exception" ∷ "Invalid TSS exception"
    ∷ "Segment not present exception" ∷ "Stack fault exception"
    ∷ "General protection fault exception" ∷ "Page Fault" ∷ "Reserved exception"
    ∷ "x87 Floating point exception" ∷ "Alignment check exception" ∷ "Machine check exception"
    ∷ "SIMD Floating point exception" ∷ "Virtualization exception" ∷ "Control protection exception"
    ∷ []

-- The frame as the words that stand in memory from its address on.
abbrev pub frame_words : InterruptFrame → List ℕ
frame_words f =
    f.r15 ∷ f.r14 ∷ f.r13 ∷ f.r12 ∷ f.r11 ∷ f.r10 ∷ f.r9 ∷ f.r8 ∷ f.rbp ∷ f.rdi ∷ f.rsi ∷ f.rdx
    ∷ f.rcx ∷ f.rbx ∷ f.rax ∷ f.interrupt_number ∷ f.error_code ∷ f.rip ∷ f.cs ∷ f.rflags ∷ f.rsp
    ∷ f.ss ∷ []

abbrev pub word_at : List ℕ → ℕ → ℕ
word_at [] i = 0
word_at (w ∷ ws) zero = w
word_at (w ∷ ws) (suc i) = word_at ws i

abbrev joined : String → String → String
joined S.[] t = t
joined (S.◌∷◌ c cs) t = S.◌∷◌ c (joined cs t)

-- A column of a label, and then the value in hexadecimal: the registers by their labels and by
-- their places in the frame.
abbrev pub register_rows : List (String × ℕ)
register_rows =
    ("RIP:     ", 17)
    ∷ ("CS:      ", 18)
    ∷ ("RFLAGS:  ", 19)
    ∷ ("RSP:     ", 20)
    ∷ ("SS:      ", 21)
    ∷ ("RAX:     ", 14)
    ∷ ("RBX:     ", 13)
    ∷ ("RCX:     ", 12)
    ∷ ("RDX:     ", 11)
    ∷ ("RSI:     ", 10)
    ∷ ("RDI:     ", 9)
    ∷ ("RBP:     ", 8)
    ∷ ("R8:      ", 7)
    ∷ ("R9:      ", 6)
    ∷ ("R10:     ", 5)
    ∷ ("R11:     ", 4)
    ∷ ("R12:     ", 3)
    ∷ ("R13:     ", 2)
    ∷ ("R14:     ", 1)
    ∷ ("R15:     ", 0)
    ∷ []

abbrev register_lines : List (String × ℕ) → List ℕ → List (String × ℕ)
register_lines [] words = []
register_lines ((label, i) ∷ rows) words =
    (joined label "0x%lX\n", word_at words i) ∷ register_lines rows words

abbrev append_lines : (ls ks : List (String × ℕ)) → List (String × ℕ)
append_lines [] ks = ks
append_lines (l ∷ ls) ks = l ∷ append_lines ls ks

-- the 20 registers, and behind them the number and the error code
abbrev pub frame_report : InterruptFrame → List (String × ℕ)
frame_report f = append_lines (register_lines register_rows (frame_words f)) (
    ("Interrupt Number: %lu\n", word_at (frame_words f) 15)
    ∷ ("Error Code:       0x%lX\n", word_at (frame_words f) 16)
    ∷ [])

frame_lines-frame_report : (f : InterruptFrame) → frame_lines f ≡ frame_report f
frame_lines-frame_report f = refl

-- one of two words, by a bit of the error code
abbrev pub by_bit : (k error_code : ℕ) (clear set : String) → Arg
by_bit k error_code clear set = text (pick set (clear ∷ []) (error_code / 2 ^ k % 2))

-- the arguments of the page fault's message
abbrev pub fault_report : (cr2 error_code : ℕ) → List Arg
fault_report cr2 error_code =
    number cr2
    ∷ number error_code
    ∷ by_bit 1 error_code "read" "write"
    ∷ by_bit 2 error_code "supervisor" "user"
    ∷ by_bit 0 error_code "not present" "present"
    ∷ by_bit 3 error_code "not reserved write" "reserved write"
    ∷ by_bit 4 error_code "not instruction fetch" "instruction fetch"
    ∷ []

bit_pick :
    (r : ℕ) (clear set : String) → r < 2 → (if r == 1 then set else clear) ≡ pick set (clear ∷ []) r
bit_pick zero clear set h = refl
bit_pick (suc zero) clear set h = refl
bit_pick (suc (suc r)) clear set h = absurd (omega (arith, h))

fault_arguments-fault_report :
    (cr2 error_code : ℕ)
    → fault_arguments (fault_detail cr2 error_code) ≡ fault_report cr2 error_code
unfolding fault_detail
fault_arguments-fault_report cr2 e =
    rw
      (
        bit_pick (e / 2 ^ 1 % 2) "read" "write" (omega arith),
        bit_pick (e / 2 ^ 2 % 2) "supervisor" "user" (omega arith),
        bit_pick (e / 2 ^ 0 % 2) "not present" "present" (omega arith),
        bit_pick (e / 2 ^ 3 % 2) "not reserved write" "reserved write" (omega arith),
        bit_pick (e / 2 ^ 4 % 2) "not instruction fetch" "instruction fetch" (omega arith),
      )
      refl

abbrev AllBelow : (ℕ → Type 0) → ℕ → Type 0
AllBelow P zero = Unit
AllBelow P (suc k) = AllBelow P k × P k

all_below : (P : ℕ → Type 0) (n k : ℕ) → AllBelow P k → n < k → P n
all_below P n zero all h = absurd (omega (arith, h))
all_below P n (suc k) (before, last) h = elim (Bool-cases (n == k)) [
  | inl here ↦ let e : n ≡ k = ground (arith, here) in rw e last
  | inr there ↦ all_below P n k before (ground (arith, there, h))
]

module _ (ssfn_putc : ℕ → Screen → Screen) (printf_ : String → List Arg → List ℕ) where
  -- the details, which a page fault alone has
  abbrev pub details : (cr2 error_code n : ℕ) → List ℕ
  details cr2 error_code n =
      if n == 14
      then printf_ "\nAdditional Details:\n" []
        ++ printf_ fault_format (fault_report cr2 error_code)
      else []

  -- The whole text about the exception `n`.
  abbrev pub report : (cr2 n : ℕ) → InterruptFrame → List ℕ
  report cr2 n f =
      ((printf_ "Kernel panic!\n" []
          ++ (printf_ "%s\n\n" (text (pick "Reserved exception" exception_messages n) ∷ [])
              ++ lines_text ssfn_putc printf_ (frame_report f)))
        ++ details cr2 f.error_code n)
      ++ codes "\nHalting and catching fire\n"

  -- `isr_handler` hands over what the tables say.
  abbrev Told : (cr2 : ℕ) → InterruptFrame → ℕ → Type 0
  Told cr2 f n = panic_text ssfn_putc printf_ (isr_handler cr2 f.error_code n) f ≡ report cr2 n f

  Told-AllBelow : (cr2 : ℕ) (f : InterruptFrame) → AllBelow (Told cr2 f) 32
  unfolding isr_handler
  Told-AllBelow cr2 f =
      let page_fault : Told cr2 f 14 =
        ap
          (λ l.
            (head_text ssfn_putc printf_ "Page Fault" f
              ++ (printf_ "\nAdditional Details:\n" [] ++ printf_ fault_format l))
            ++ codes "\nHalting and catching fire\n")
          (fault_arguments-fault_report cr2 f.error_code) in
      (
        (
          (
            (
              (
                (
                  (
                    (
                      (
                        (
                          (
                            (
                              (
                                (
                                  (
                                    (
                                      (
                                        (
                                          (
                                            (
                                              (
                                                (
                                                  (
                                                    (
                                                      (
                                                        (
                                                          (
                                                            (
                                                            ((((tt, refl), refl), refl), refl),
                                                            refl,
                                                            ),
                                                            refl,
                                                          ),
                                                          refl,
                                                        ),
                                                        refl,
                                                      ),
                                                      refl,
                                                    ),
                                                    refl,
                                                  ),
                                                  refl,
                                                ),
                                                refl,
                                              ),
                                              refl,
                                            ),
                                            refl,
                                          ),
                                          page_fault,
                                        ),
                                        refl,
                                      ),
                                      refl,
                                    ),
                                    refl,
                                  ),
                                  refl,
                                ),
                                refl,
                              ),
                              refl,
                            ),
                            refl,
                          ),
                          refl,
                        ),
                        refl,
                      ),
                      refl,
                    ),
                    refl,
                  ),
                  refl,
                ),
                refl,
              ),
              refl,
            ),
            refl,
          ),
          refl,
        ),
        refl,
      )

  pub panic_text-report :
      (cr2 n : ℕ) (f : InterruptFrame)
      → n < 32
      → panic_text ssfn_putc printf_ (isr_handler cr2 f.error_code n) f ≡ report cr2 n f
  panic_text-report cr2 n f h = all_below (Told cr2 f) n 32 (Told-AllBelow cr2 f) h
