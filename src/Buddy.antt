-- ===== src/Buddy.antt =====
-- kernel/memory/buddy.c and kernel/include/kernel/buddy.h: the buddy allocator.
-- A free block holds its own list node, so the functions run over a memory that gives the
-- `BuddyBlock` at each address (blocks lie whole pages apart, and two nodes never overlap).
-- Every address can be read and written, as in the kernel's direct map. `NULL` is address 0.
-- The log calls under `DEBUG` touch none of this state; those of the start are in Logged.antt.
pub mod Cover
pub mod Valid
mod Split
pub mod Order
pub mod Allocate
mod Unlink
pub mod Free
mod Merge
pub mod Init
pub mod Count
pub mod Life
pub mod Oversize
pub mod Debug
pub mod Logged
mod Tests
pub use mirus.Base.{update}
use mirus.Base.{
  ℕ, zero, suc, ◌+◌, ◌-◌, ◌*◌, ◌/◌, ◌%◌, ◌^◌, ◌&&◌, ◌||◌, Option, none, some, ltb, leb, ◌==◌,
  if◌then◌else◌,
}
use Prim.Native.Nat.{bit_xor}

abbrev pub max_order : ℕ
max_order = 11

abbrev pub page_size : ℕ
page_size = 4096

abbrev pub null : ℕ
null = 0

-- a `size_t` or `uintptr_t`
abbrev pub word : ℕ → ℕ
word n = n % 2 ^ 64

pub record BuddyBlock : Type 0 where
  pub next : ℕ
  pub size : ℕ

-- `free_lists` gives the head of each list; the code reads and writes indices up to `max_order`.
pub record BuddyAllocator : Type 0 where
  pub start_address : ℕ
  pub pool_size : ℕ
  pub free_lists : ℕ → ℕ

-- The allocator with the memory that its pointers lead into.
pub record Heap : Type 0 where
  pub memory : ℕ → BuddyBlock
  pub allocator : BuddyAllocator

abbrev pub free_list : Heap → ℕ → ℕ
free_list h order = h.allocator.free_lists order

abbrev pub set_list : Heap → ℕ → ℕ → Heap
set_list h order p = record h {
  allocator = record (h.allocator) { free_lists = update h.allocator.free_lists order p };
}

abbrev pub set_next : Heap → ℕ → ℕ → Heap
set_next h p q = record h { memory = update h.memory p (record (h.memory p) { next = q }) }

abbrev pub set_size : Heap → ℕ → ℕ → Heap
set_size h p n = record h { memory = update h.memory p (record (h.memory p) { size = n }) }

-- The loop of `find_order`; `order` rises to `max_order` at most, so its caller's rounds are enough.
pub find_order_loop : ℕ → (order block_size size : ℕ) → ℕ
find_order_loop zero order block_size size = order
find_order_loop (suc rounds) order block_size size =
    let rest = find_order_loop rounds (order + 1) (word (block_size * 2)) size in
    if ltb block_size size && ltb order max_order then rest else order

pub find_order : ℕ → ℕ
unfolding find_order_loop
find_order size = find_order_loop (max_order + 1) 0 page_size size

pub split_block : Heap → ℕ → Heap
split_block h order =
    if order == 0 || free_list h order == null
    then h
    else let block = free_list h order in
      let h1 = set_list h order (h.memory block).next in
      let half_size = page_size * 2 ^ (order - 1) in
      let buddy = word (block + half_size) in
      let h2 = set_size (set_size h1 block half_size) buddy half_size in
      let h3 = set_next h2 block buddy in
      let h4 = set_next h3 buddy (free_list h3 (order - 1)) in set_list h4 (order - 1) block

pub find_buddy : ℕ → ℕ → ℕ
find_buddy block_addr block_size = bit_xor block_addr block_size

-- `while (i > order) { split_block(i); i--; }`, with `n` for `i - order`
pub split_down : (order n : ℕ) → Heap → Heap
split_down order zero h = h
split_down order (suc n) h = split_down order n (split_block h (order + suc n))

-- `block = free_lists[i]; free_lists[i] = block->next; return block`
pub take_head : Heap → ℕ → ℕ × Heap
take_head h order = let block = free_list h order in (block, set_list h order (h.memory block).next)

-- The `for` loop of `buddy_allocator_allocate`, with `n` rounds left to `max_order`.
pub allocate_from : (order n i : ℕ) → Heap → ℕ × Heap
allocate_from order zero i h = (0, h)
allocate_from order (suc n) i h =
    let rest = allocate_from order n (i + 1) h in
    if free_list h i == null then rest else take_head (split_down order (i - order) h) order

unfoldable pub allocate : Heap → ℕ → ℕ × Heap
unfolding allocate_from split_down split_block take_head find_order
allocate h size =
    let order = find_order size in
    if ltb max_order order then (0, h) else allocate_from order (max_order + 1 - order) order h

-- How the search for the buddy in a free list ends; `found` gives the node before it.
pub data Scan : Type 0 where
  out_of_fuel not_found : Scan
  found : ℕ → Scan

-- `while (curr != NULL) { if (curr == buddy) …; prev = curr; curr = curr->next; }`
pub scan : ℕ → (ℕ → BuddyBlock) → (buddy prev curr : ℕ) → Scan
scan zero memory buddy prev curr = out_of_fuel
scan (suc fuel) memory buddy prev curr =
    let rest = scan fuel memory buddy curr (memory curr).next in
    if curr == null then not_found else if curr == buddy then found prev else rest

-- `if (prev == NULL) free_lists[order] = curr->next; else prev->next = curr->next;`
pub unlink : Heap → (order prev curr : ℕ) → Heap
unlink h order prev curr =
    if prev == null
    then set_list h order (h.memory curr).next
    else set_next h prev (h.memory curr).next

-- `block->next = free_lists[order]; free_lists[order] = block;`
pub push_block : Heap → (order block : ℕ) → Heap
push_block h order block = set_list (set_next h block (free_list h order)) order block

-- The merge loop of `buddy_allocator_free`, with `n` for `max_order - order`, and the push behind
-- it. `block` is always the node at `address`. Each search has `fuel` steps.
pub merge_loop : (fuel n order address : ℕ) → Heap → Option Heap
merge_loop fuel zero order address h = some (push_block h order address)
merge_loop fuel (suc n) order address h =
    let buddy = find_buddy address (h.memory address).size in
    elim (scan fuel h.memory buddy null (free_list h order)) [
      | out_of_fuel ↦ none
      | not_found ↦ some (push_block h order address)
      | found prev ↦
          let h1 = unlink h order prev buddy in
          let merged = if ltb buddy address then buddy else address in
          let h2 = set_size h1 merged (word ((h1.memory merged).size * 2)) in
          merge_loop fuel n (order + 1) merged h2
    ]

unfoldable pub free : ℕ → Heap → ℕ → Option Heap
unfolding merge_loop scan unlink push_block find_buddy find_order
free fuel h address =
    let order = find_order (h.memory address).size in
    merge_loop fuel (max_order - order) order address h

-- `while (order >= 0 && block_size > remaining_size) { order--; block_size >>= 1; }`; `none` is
-- the end with `order == -1`.
pub fit_order : (order block_size remaining_size : ℕ) → Option (ℕ × ℕ)
fit_order zero block_size remaining_size =
    if ltb remaining_size block_size then none else some (0, block_size)
fit_order (suc order) block_size remaining_size =
    let rest = fit_order order (block_size / 2) remaining_size in
    if ltb remaining_size block_size then rest else some (suc order, block_size)

-- The loop of `buddy_allocator_init`; `none` stands for a write to `free_lists[-1]`, and for fuel
-- that runs out.
pub init_loop : (fuel remaining_size current_address : ℕ) → Heap → Option Heap
init_loop zero remaining_size current_address h = none
init_loop (suc fuel) remaining_size current_address h =
    if ltb remaining_size page_size
    then some h
    else elim (fit_order max_order (page_size * 2 ^ max_order) remaining_size) [
      | none ↦ none
      | some (order, block_size) ↦
          let h1 = set_size h current_address block_size in
          init_loop fuel (remaining_size - block_size) (word (current_address + block_size))
            (push_block h1 order current_address)
    ]

-- Each round takes a page or more off the pool.
unfoldable pub init : Heap → (start_address pool_size : ℕ) → Option Heap
unfolding init_loop fit_order push_block
init h start_address pool_size =
    let cleared = record h {
      allocator = record {
        start_address = start_address;
        pool_size = pool_size;
        free_lists = λ order. if leb order max_order then null else h.allocator.free_lists order;
      };
    } in
    init_loop (pool_size / page_size + 1) pool_size start_address cleared
