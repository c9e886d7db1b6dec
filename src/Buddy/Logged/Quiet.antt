-- ===== src/Buddy/Logged/Quiet.antt =====
-- The log calls of `buddy_allocator_init` in kernel/memory/buddy.c return.
use mirus.Base.{
  ℕ, zero, suc, ◌+◌, ◌-◌, ◌*◌, ◌/◌, ◌^◌, ◌≡◌, refl, true, List, Option, none, some, ltb, Bool-cases,
  inl, inr,
}
use mirus.Buddy.{max_order, page_size, word, fit_order}
use mirus.Buddy.Logged.{with_block, created_lines, log_init}
use mirus.SerialLog.{Output, Line}
use mirus.SerialLog.Quiet.{Works, all_named, Quiet, Quiet-after, log-Quiet, log_all-Quiet}

with_block_named :
    (current_address : ℕ) (rest : ℕ → List Line) (found : Option (ℕ × ℕ))
    → ((size : ℕ) → all_named (rest size) ≡ true)
    → all_named (with_block current_address rest found) ≡ true
with_block_named current_address rest none short = refl
with_block_named current_address rest (some (order, size)) short = short size

created_lines_named :
    (fuel remaining_size current_address : ℕ)
    → all_named (created_lines fuel remaining_size current_address) ≡ true
unfolding created_lines
created_lines_named zero remaining_size current_address = refl
created_lines_named (suc fuel) remaining_size current_address =
    elim (Bool-cases (ltb remaining_size page_size)) [
      | inl done ↦ rw done refl
      | inr more ↦ rw more (
          with_block_named current_address _
            (fit_order max_order (page_size * 2 ^ max_order) remaining_size)
            (λ size.
              created_lines_named fuel (remaining_size - size) (word (current_address + size))))
    ]

pub log_init-Quiet :
    (o : Output)
    → Works o
    → (start_address pool_size : ℕ) → Quiet (log_init o start_address pool_size)
unfolding log_init
log_init-Quiet o works start_address pool_size = Quiet-after _ _ (log_all-Quiet o works _ refl) (
    Quiet-after _ _
      (log_all-Quiet o works (created_lines (pool_size / page_size + 1) pool_size start_address)
        (created_lines_named (pool_size / page_size + 1) pool_size start_address))
      (log-Quiet o works _ refl))
