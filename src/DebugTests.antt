-- ===== src/DebugTests.antt =====
-- kernel/debug/debug_tests.c: the run of the memory manager, `debug_test_buddy_allocator`, with the
-- lines that it logs. Exceptions.antt and SystemCalls.antt have the other two runs of this file.
pub mod Does
pub mod Returns
pub mod Exceptions
pub mod SystemCalls
mod Tests
use mirus.Base.{ℕ, zero, suc, ◌+◌, Option, none, some, List, [], ◌∷◌, ◌++◌}
use mirus.Base.Format.{Arg, number}
use mirus.Logger.{log_debug}
use mirus.Buddy.Debug.{DebugState}
use mirus.Pmm.{Pmm, pmm_alloc, pmm_free, pmm_debug_print_state}
use mirus.SerialLog.{Line, info}
use Prim.Native.String.{String}

-- What the test does that can be seen: an address from `pmm_alloc`, and a line.
pub data Event : Type 0 where
  given : ℕ → Event
  says : Line → Event

-- A part of the test on the memory manager: its events, and its result, which is `none` if it does
-- not return.
abbrev pub Test : Type 0 → Type 0
Test A = Pmm → List Event × Option (A × Pmm)

module _ {A : Type 0} where
  abbrev pub pure : A → Test A
  pure a s = ([], some (a, s))

-- the events of the first part, then those of the second
abbrev pub chained :
    {A B : Type 0} → List Event × Option (A × Pmm) → (A → Test B) → List Event × Option (B × Pmm)
chained (events, none) f = (events, none)
chained (events, some (a, s)) f = let (more, r) = f a s in (events ++ more, r)

infixl 5 ◌>>=◌ ◌>>◌
abbrev pub ◌>>=◌ : {A B : Type 0} → Test A → (A → Test B) → Test B
◌>>=◌ m f s = chained (m s) f

abbrev pub ◌>>◌ : {A B : Type 0} → Test A → Test B → Test B
m >> k = m >>= λ _. k

pub alloc : (size : ℕ) → Test ℕ
alloc size s = let (address, s') = pmm_alloc size s in (given address ∷ [], some (address, s'))

pub log : Line → Test (Unit {0})
log l s = (says l ∷ [], some (tt, s))

-- a line of the test
abbrev pub line : String → List Arg → Line
line format args = record (info "memory_manager" format args) { level = log_debug }

-- the elements at the even indices, and those at the odd ones
abbrev pub evens : List ℕ → List ℕ
evens [] = []
evens (a ∷ []) = a ∷ []
evens (a ∷ b ∷ rest) = a ∷ evens rest

abbrev pub odds : List ℕ → List ℕ
odds [] = []
odds (a ∷ []) = []
odds (a ∷ b ∷ rest) = b ∷ odds rest

-- `for (int i = 0; i < NUM_BLOCKS; i++)`, with `n` blocks to go
pub alloc_blocks : (n i : ℕ) → Test (List ℕ)
unfolding alloc log
alloc_blocks zero i = pure []
alloc_blocks (suc n) i = do
  address ← alloc 4096
  log (line "Small allocation %d: 0x%llx" (number i ∷ number address ∷ []))
  rest ← alloc_blocks n (i + 1)
  pure (address ∷ rest)

module _ (fuel : ℕ) where
  pub release : (address : ℕ) → Test (Unit {0})
  release address s = elim (pmm_free fuel address s) [
    | none ↦ ([], none)
    | some s' ↦ ([], some (tt, s'))
  ]

  pub release_all : List ℕ → Test (Unit {0})
  unfolding release
  release_all [] = pure tt
  release_all (a ∷ rest) = do release a; release_all rest

  pub print_state : Test DebugState
  print_state s = elim (pmm_debug_print_state fuel s) [
    | none ↦ ([], none)
    | some d ↦ ([], some (d, s))
  ]

  -- a page, two pages and four pages, and back
  pub three_blocks : Test (Unit {0})
  unfolding alloc log release
  three_blocks = do
    addr1 ← alloc 4096
    addr2 ← alloc 8192
    addr3 ← alloc 16384
    log (
        line "Allocated addresses: 0x%llx, 0x%llx, 0x%llx"
          (number addr1 ∷ number addr2 ∷ number addr3 ∷ []))
    release addr1
    release addr2
    release addr3

  -- 128 KB, and back
  pub large_block : Test (Unit {0})
  unfolding alloc log release
  large_block = do
    large_addr ← alloc 131072
    log (line "Large allocation address: 0x%llx" (number large_addr ∷ []))
    release large_addr

  -- `num_blocks` pages, every other one back, 32 KB, and the rest back
  pub many_blocks : (num_blocks : ℕ) → Test (Unit {0})
  unfolding alloc log alloc_blocks release release_all
  many_blocks num_blocks = do
    addresses ← alloc_blocks num_blocks 0
    release_all (evens addresses)
    medium_addr ← alloc 32768
    log (line "Medium allocation after freeing: 0x%llx" (number medium_addr ∷ []))
    release_all (odds addresses)
    release medium_addr

  pub debug_test_buddy_allocator : Test DebugState
  unfolding three_blocks large_block many_blocks print_state
  debug_test_buddy_allocator = do three_blocks; large_block; many_blocks 50; print_state
