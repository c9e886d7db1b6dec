-- ===== src/Buddy/Logged.antt =====
-- The log lines of `buddy_allocator_init` in kernel/memory/buddy.c.
pub mod Quiet
use mirus.Base.{
  ℕ, zero, suc, ◌+◌, ◌-◌, ◌*◌, ◌/◌, ◌^◌, Option, none, some, List, [], ◌∷◌, ltb, if◌then◌else◌,
}
use mirus.Base.Format.{number}
use mirus.Buddy.{max_order, page_size, word, fit_order}
use mirus.SerialLog.{Output, Line, Boot, ◌>>=◌, ◌>>◌, log, log_all, info}

-- the line about a block, with its order and address, and those of the rounds after it
abbrev pub with_block : (current_address : ℕ) → (ℕ → List Line) → Option (ℕ × ℕ) → List Line
with_block current_address rest none = []
with_block current_address rest (some (order, block_size)) =
    info "memory_manager" "Created block of order %d at address 0x%016llx\n"
      (number order ∷ number current_address ∷ [])
    ∷ rest block_size

-- the lines of the loop
pub created_lines : (fuel remaining_size current_address : ℕ) → List Line
created_lines zero remaining_size current_address = []
created_lines (suc fuel) remaining_size current_address =
    let lines =
      with_block current_address
        (λ block_size.
          created_lines fuel (remaining_size - block_size) (word (current_address + block_size)))
        (fit_order max_order (page_size * 2 ^ max_order) remaining_size) in
    if ltb remaining_size page_size then [] else lines

pub log_init : Output → (start_address pool_size : ℕ) → Boot (Unit {0})
unfolding created_lines
log_init o start_address pool_size = do
  log_all o (
      info "memory_manager" "Initializing buddy allocator at 0x%016llx with size %d bytes\n"
        (number start_address ∷ number pool_size ∷ [])
      ∷ info "memory_manager" "Initializing free lists to null\n" []
      ∷ info "memory_manager" "Creating memory blocks\n" []
      ∷ [])
  log_all o (created_lines (pool_size / page_size + 1) pool_size start_address)
  log o (info "memory_manager" "Buddy allocator initialization complete\n" [])
