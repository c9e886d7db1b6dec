-- ===== src/Buddy/Debug.antt =====
-- `buddy_allocator_debug_state` of kernel/memory/buddy.c: the numbers that it reports. The text
-- that carries them (the JSON emitter and the log) is left out.
pub mod Totals
use mirus.Base.{
  Bool, true, false, ℕ, zero, suc, ◌+◌, ◌-◌, ◌*◌, ◌/◌, ◌^◌, Option, none, some, List, [], ◌∷◌, ◌==◌,
  if◌then◌else◌,
}
use mirus.Buddy.{BuddyBlock, Heap, page_size, max_order, null, word, free_list}

-- One element of `orders`; `blocks` are the addresses that are printed.
pub record OrderState : Type 0 where
  pub order : ℕ
  pub block_size : ℕ
  pub free_blocks : ℕ
  pub total_free_memory : ℕ
  pub blocks : List ℕ

pub record DebugState : Type 0 where
  pub total_memory_size : ℕ
  pub total_pages : ℕ
  pub orders : List OrderState
  pub total_free : ℕ
  pub total_allocated : ℕ

-- The `int` that counts has no width here, since 2^31 free blocks of one list would be needed to
-- leave it.
-- `while (current != NULL) { block_count++; total_free_memory += block_size; … }`
pub count_blocks : (fuel block_size count total current : ℕ) → (ℕ → BuddyBlock) → Option (ℕ × ℕ)
count_blocks zero block_size count total current memory = none
count_blocks (suc fuel) block_size count total current memory =
    let rest =
      count_blocks fuel block_size (count + 1) (word (total + block_size)) (memory current).next
        memory in
    if current == null then some (count, total) else rest

-- the loop that prints the addresses
pub print_blocks : (fuel current : ℕ) → (ℕ → BuddyBlock) → Option (List ℕ)
print_blocks zero current memory = none
print_blocks (suc fuel) current memory =
    let rest : Option (List ℕ) = elim (print_blocks fuel (memory current).next memory) [
      | none ↦ none
      | some addresses ↦ some (current ∷ addresses)
    ] in
    if current == null then some [] else rest

-- the inner loop of the second pass, which only sums
pub sum_blocks : (fuel block_size total current : ℕ) → (ℕ → BuddyBlock) → Option ℕ
sum_blocks zero block_size total current memory = none
sum_blocks (suc fuel) block_size total current memory =
    let rest =
      sum_blocks fuel block_size (word (total + block_size)) (memory current).next memory in
    if current == null then some total else rest

-- what the first pass reports for one order
pub order_state : (fuel order : ℕ) → Heap → Option OrderState
unfolding count_blocks print_blocks
order_state fuel order h =
    let block_size = page_size * 2 ^ order in
    elim (count_blocks fuel block_size 0 0 (free_list h order) h.memory) [
      | none ↦ none
      | some counted ↦ elim (print_blocks fuel (free_list h order) h.memory) [
        | none ↦ none
        | some addresses ↦ some (record {
          order = order;
          block_size = block_size;
          free_blocks = counted.0;
          total_free_memory = counted.1;
          blocks = addresses;
        })
      ]
    ]

-- The first pass, with `rounds` orders left from `order` on.
pub order_states : (fuel rounds order : ℕ) → Heap → Option (List OrderState)
unfolding order_state
order_states fuel zero order h = some []
order_states fuel (suc rounds) order h = elim (order_state fuel order h) [
  | none ↦ none
  | some s ↦ elim (order_states fuel rounds (order + 1) h) [
    | none ↦ none
    | some rest ↦ some (s ∷ rest)
  ]
]

-- The second pass.
pub sum_orders : (fuel rounds order total : ℕ) → Heap → Option ℕ
unfolding sum_blocks
sum_orders fuel zero order total h = some total
sum_orders fuel (suc rounds) order total h =
    elim (sum_blocks fuel (page_size * 2 ^ order) total (free_list h order) h.memory) [
      | none ↦ none
      | some total' ↦ sum_orders fuel rounds (order + 1) total' h
    ]

unfoldable pub debug_state : (fuel : ℕ) → Heap → Option DebugState
unfolding order_states sum_orders
debug_state fuel h = elim (order_states fuel (max_order + 1) 0 h) [
  | none ↦ none
  | some states ↦ elim (sum_orders fuel (max_order + 1) 0 0 h) [
    | none ↦ none
    | some total ↦ some (record {
      total_memory_size = h.allocator.pool_size;
      total_pages = h.allocator.pool_size / page_size;
      orders = states;
      total_free = total;
      total_allocated = word (h.allocator.pool_size + 2 ^ 64 - total);
    })
  ]
]
