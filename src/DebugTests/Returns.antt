-- ===== src/DebugTests/Returns.antt =====
-- The run of the memory manager in debug_tests.c as a whole.
use mirus.Base.{ℕ, zero, suc, ◌+◌, ◌*◌, ◌/◌, ◌≡◌, some, List, [], ◌∷◌, ◌++◌}
use mathlib.Core.List.{append_assoc}
use mirus.Base.Format.{number}
use mirus.Buddy.{page_size, find_order}
use mirus.Buddy.Debug.{DebugState}
use mirus.Buddy.Debug.Totals.{held_bytes}
use mirus.Buddy.Life.{Block, IsSound, IsSound-first}
use mirus.Pmm.{Pmm}
use mirus.DebugTests.{
  evens, odds, line, alloc_blocks, three_blocks, large_block, many_blocks, release_all,
  debug_test_buddy_allocator,
}
use mirus.DebugTests.Does.{
  AllGiven, Out, Does, Does-pure, Does-bind, log-Does, alloc-Does, release-Does, print_state-Does,
}

-- the blocks of one size at these addresses
abbrev blocks_of : (size : ℕ) → List ℕ → List Block
blocks_of size [] = []
blocks_of size (a ∷ rest) = (a, find_order size) ∷ blocks_of size rest

module _ (start pool : ℕ) where
  alloc_blocks-Does :
      (n i : ℕ) (blocks : List Block)
      → Does start pool
          (alloc_blocks n i)
          (Out start pool blocks)
          (λ given. Out start pool (blocks_of 4096 given ++ blocks))
  unfolding alloc_blocks
  alloc_blocks-Does zero i blocks = Does-pure start pool [] _ _ (λ s h. h)
  alloc_blocks-Does (suc n) i blocks =
      Does-bind start pool _ _ _ _ _ (alloc-Does start pool 4096 blocks) (λ a.
        Does-bind start pool _ _ _ _ _
          (log-Does start pool (line "Small allocation %d: 0x%llx" (number i ∷ number a ∷ [])) _)
          (λ _.
            Does-bind start pool _ _ _ _ _
              (alloc_blocks-Does n (i + 1) ((a, find_order 4096) ∷ blocks))
              (λ rest. Does-pure start pool (a ∷ rest) _ _ (λ s.
                IsSound-first s.buddy_allocator (blocks_of 4096 rest) blocks
                  (a, find_order 4096)))))

  -- Releasing every other block.
  release_evens-Does :
      (given : List ℕ) (before after : List Block)
      → Does start pool
          (release_all (pool / page_size + 1) (evens given))
          (Out start pool (before ++ (blocks_of 4096 given ++ after)))
          (λ _. Out start pool (before ++ (blocks_of 4096 (odds given) ++ after)))
  unfolding release_all
  release_evens-Does [] before after = Does-pure start pool tt _ _ (λ s h. h)
  release_evens-Does (a ∷ []) before after =
      Does-bind start pool _ _ _ _ _ (release-Does start pool before after a (find_order 4096))
        (λ _. Does-pure start pool tt _ _ (λ s h. h))
  release_evens-Does (a ∷ b ∷ rest) before after =
      Does-bind start pool _ _ _ _ _ (release-Does start pool before _ a (find_order 4096)) (λ _.
        regrouped rest before after (b, find_order 4096)
          (release_evens-Does rest (before ++ (b, find_order 4096) ∷ []) after))
    where
      regrouped :
          (rest : List ℕ) (before after : List Block) (kept : Block)
          → Does start pool
              (release_all (pool / page_size + 1) (evens rest))
              (Out start pool ((before ++ kept ∷ []) ++ (blocks_of 4096 rest ++ after)))
              (λ _. Out start pool ((before ++ kept ∷ []) ++ (blocks_of 4096 (odds rest) ++ after)))
          → Does start pool
              (release_all (pool / page_size + 1) (evens rest))
              (Out start pool (before ++ (kept ∷ blocks_of 4096 rest ++ after)))
              (λ _. Out start pool (before ++ (kept ∷ blocks_of 4096 (odds rest) ++ after)))
      regrouped rest before after kept r =
          rw
            (
              append_assoc before (kept ∷ []) (blocks_of 4096 rest ++ after),
              append_assoc before (kept ∷ []) (blocks_of 4096 (odds rest) ++ after),
            )
            at r

  release_all-Does :
      (given : List ℕ) (before after : List Block)
      → Does start pool
          (release_all (pool / page_size + 1) given)
          (Out start pool (before ++ (blocks_of 4096 given ++ after)))
          (λ _. Out start pool (before ++ after))
  unfolding release_all
  release_all-Does [] before after = Does-pure start pool tt _ _ (λ s h. h)
  release_all-Does (a ∷ rest) before after =
      Does-bind start pool _ _ _ _ _ (release-Does start pool before _ a (find_order 4096))
        (λ _. release_all-Does rest before after)

  three_blocks-Does :
      (blocks : List Block)
      → Does start pool
          (three_blocks (pool / page_size + 1))
          (Out start pool blocks)
          (λ _. Out start pool blocks)
  unfolding three_blocks
  three_blocks-Does blocks =
      Does-bind start pool _ _ _ _ _ (alloc-Does start pool 4096 blocks) (λ a1.
        Does-bind start pool _ _ _ _ _ (alloc-Does start pool 8192 _) (λ a2.
          Does-bind start pool _ _ _ _ _ (alloc-Does start pool 16384 _) (λ a3.
            Does-bind start pool _ _ _ _ _
              (log-Does start pool
                (line "Allocated addresses: 0x%llx, 0x%llx, 0x%llx"
                  (number a1 ∷ number a2 ∷ number a3 ∷ []))
                _)
              (λ _.
                Does-bind start pool _ _ _ _ _
                  (release-Does start pool ((a3, find_order 16384) ∷ (a2, find_order 8192) ∷ [])
                    blocks a1 (find_order 4096))
                  (λ _.
                    Does-bind start pool _ _ _ _ _
                      (release-Does start pool ((a3, find_order 16384) ∷ []) blocks a2
                        (find_order 8192))
                      (λ _. release-Does start pool [] blocks a3 (find_order 16384)))))))

  large_block-Does :
      (blocks : List Block)
      → Does start pool
          (large_block (pool / page_size + 1))
          (Out start pool blocks)
          (λ _. Out start pool blocks)
  unfolding large_block
  large_block-Does blocks =
      Does-bind start pool _ _ _ _ _ (alloc-Does start pool 131072 blocks) (λ large.
        Does-bind start pool _ _ _ _ _
          (log-Does start pool (line "Large allocation address: 0x%llx" (number large ∷ [])) _)
          (λ _. release-Does start pool [] blocks large (find_order 131072)))

  many_blocks-Does :
      (num_blocks : ℕ) (blocks : List Block)
      → Does start pool
          (many_blocks (pool / page_size + 1) num_blocks)
          (Out start pool blocks)
          (λ _. Out start pool blocks)
  unfolding many_blocks
  many_blocks-Does num_blocks blocks =
      Does-bind start pool _ _ _ _ _ (alloc_blocks-Does num_blocks 0 blocks) (λ given.
        Does-bind start pool _ _ _ _ _ (release_evens-Does given [] blocks) (λ _.
          Does-bind start pool _ _ _ _ _ (alloc-Does start pool 32768 _) (λ medium.
            Does-bind start pool _ _ _ _ _
              (log-Does start pool
                (line "Medium allocation after freeing: 0x%llx" (number medium ∷ [])) _)
              (λ _.
                Does-bind start pool _ _ _ _ _
                  (release_all-Does (odds given) ((medium, find_order 32768) ∷ []) blocks)
                  (λ _. release-Does start pool [] blocks medium (find_order 32768))))))

  debug_test_buddy_allocator-Does :
      (blocks : List Block)
      → Does start pool
          (debug_test_buddy_allocator (pool / page_size + 1))
          (Out start pool blocks)
          (λ d s.
            Out start pool blocks s
            × (d.total_free + held_bytes blocks ≡ pool / page_size * page_size))
  unfolding debug_test_buddy_allocator
  debug_test_buddy_allocator-Does blocks =
      Does-bind start pool _ _ _ _ _ (three_blocks-Does blocks) (λ _.
        Does-bind start pool _ _ _ _ _ (large_block-Does blocks) (λ _.
          Does-bind start pool _ _ _ _ _ (many_blocks-Does 50 blocks)
            (λ _. print_state-Does start pool blocks)))

-- In a sound memory manager, if `pmm_alloc` refuses none of its requests, the run of
-- debug_tests.c returns within one step per page of the pool for each list search: every block
-- that it took is given back, so the manager is sound with the blocks that were out before, and
-- the free bytes that it prints at the end make up the whole pages of the pool with them.
pub debug_test_buddy_allocator_lem :
    (start pool : ℕ) (s : Pmm) (blocks : List Block)
    → IsSound start pool (record { heap = s.buddy_allocator; blocks = blocks })
    → AllGiven (debug_test_buddy_allocator (pool / page_size + 1) s).0
    → (d : DebugState) × (s' : Pmm) × ((debug_test_buddy_allocator (pool / page_size + 1) s).1
        ≡ some (d, s'))
      × IsSound start pool (record { heap = s'.buddy_allocator; blocks = blocks })
      × (d.total_free + held_bytes blocks ≡ pool / page_size * page_size)
debug_test_buddy_allocator_lem start pool s blocks sound given_all =
    let (d, s', returned, (rest, both)) =
      (debug_test_buddy_allocator-Does start pool blocks).returns s sound given_all in
    (d, s', returned, rest, both)
