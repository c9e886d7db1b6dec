-- ===== src/Buddy/Life.antt =====
-- A kernel that allocates and frees with buddy.c through kernel/memory/pmm.c, and writes to the
-- blocks that it owns: what holds in every state that it can reach.
use mirus.Base.{
  ℕ, ◌+◌, ◌*◌, ◌/◌, ◌^◌, ◌≤◌, ◌<◌, ◌≡◌, refl, ◌≢◌, List, [], ◌∷◌, ◌++◌, arith, inl, inr, ap, sym,
  ◌∙◌, some,
}
use mathlib.Core.Path.{subst}
use mirus.Buddy.{BuddyBlock, Heap, max_order, page_size, null, find_order, allocate, free, init}
use mirus.Buddy.Cover.{FreeLists, block_bytes, block_span, block_span_start}
use mirus.Buddy.Valid.{IsWell, IsWell-write, IsWell-same}
use mirus.Buddy.Order.{find_order-Fits}
use mirus.Buddy.Allocate.{allocate-Served}
use mirus.Buddy.Free.{free-Leaves}
use mirus.Buddy.Count.{IsWell-Short}
use mirus.Buddy.Init.{init-Leaves}

-- An allocated block: its address and its order.
abbrev pub Block : Type 0
Block = ℕ × ℕ

-- how many allocated blocks hold an address
abbrev pub held_by : List Block → ℕ → ℕ
held_by [] x = 0
held_by ((p, k) ∷ bs) x = block_span k p x + held_by bs x

-- Each allocated block still has its size in its header.
abbrev pub Headed : (ℕ → BuddyBlock) → List Block → Type 0
Headed m [] = Unit
Headed m ((p, k) ∷ bs) = (k ≤ max_order) × ((m p).size ≡ block_bytes k) × Headed m bs

-- The allocator's heap, and the blocks that are out.
pub record Kernel : Type 0 where
  pub heap : Heap
  pub blocks : List Block

abbrev pages : ℕ → ℕ
pages pool = pool / page_size

-- The fuel of a search: one more than the pool has pages.
pub data Step (pool : ℕ) : Kernel → Kernel → Type 0 where
  alloc :
      (s : Kernel) (size : ℕ)
      → (allocate s.heap size).0 ≢ null
      → Step pool s (record {
        heap = (allocate s.heap size).1;
        blocks = ((allocate s.heap size).0, find_order size) ∷ s.blocks;
      })
  refused :
      (s : Kernel) (size : ℕ)
      → (allocate s.heap size).0 ≡ null
      → Step pool s (record s { heap = (allocate s.heap size).1 })
  give_back :
      (s : Kernel) (before after : List Block) (p k : ℕ) (h : Heap)
      → s.blocks ≡ before ++ (p, k) ∷ after
      → free (pages pool + 1) s.heap p ≡ some h
      → Step pool s (record { heap = h; blocks = before ++ after })
  write :
      (s : Kernel) (m : ℕ → BuddyBlock)
      → ((x : ℕ) → held_by s.blocks x ≡ 0 → m x ≡ s.heap.memory x)
      → Headed m s.blocks
      → Step pool s (record s { heap = record (s.heap) { memory = m } })

pub data Reach (pool : ℕ) (s : Kernel) : Kernel → Type 0 where
  here : Reach pool s s
  next : {t u : Kernel} → Reach pool s t → Step pool t u → Reach pool s u

-- The free lists and the blocks that are out tile the whole pages of the pool.
pub record IsSound (start pool : ℕ) (s : Kernel) : Type 0 where
  pub lists : FreeLists
  pub well : IsWell start (start + pages pool * page_size) s.heap lists (held_by s.blocks)
  pub headed : Headed s.heap.memory s.blocks

held_by-append : (bs cs : List Block) (x : ℕ) → held_by (bs ++ cs) x ≡ held_by bs x + held_by cs x
held_by-append [] cs x = omega arith
held_by-append ((p, k) ∷ bs) cs x = omega (arith, held_by-append bs cs x)

Headed-frame :
    (m m' : ℕ → BuddyBlock) (bs : List Block)
    → Headed m bs
    → ((x : ℕ) → 0 < held_by bs x → (m' x).size ≡ (m x).size)
    → Headed m' bs
Headed-frame m m' [] t same = tt
Headed-frame m m' ((p, k) ∷ bs) t same = (
  t.0,
  same p (omega (arith, block_span_start k p)) ∙ t.1,
  Headed-frame m m' bs (t.2) (λ x y. same x (omega arith)),
)

Headed-append :
    (m : ℕ → BuddyBlock) (bs cs : List Block) → Headed m (bs ++ cs) → Headed m bs × Headed m cs
Headed-append m [] cs t = (tt, t)
Headed-append m (b ∷ bs) cs t = let r = Headed-append m bs cs (t.2) in ((t.0, t.1, r.0), r.1)

append-Headed :
    (m : ℕ → BuddyBlock) (bs cs : List Block) → Headed m bs → Headed m cs → Headed m (bs ++ cs)
append-Headed m [] cs t u = u
append-Headed m (b ∷ bs) cs t u = (t.0, t.1, append-Headed m bs cs (t.2) u)

-- Memory that the rest of the blocks hold, beside one block.
held_beside :
    (before after : List Block) (p k : ℕ) (x : ℕ)
    → held_by (before ++ (p, k) ∷ after) x ≡ held_by (before ++ after) x + block_span k p x
held_beside before after p k x =
    omega (arith, held_by-append before ((p, k) ∷ after) x, held_by-append before after x)

module _ {start pool : ℕ} where
  -- Freeing a block that is out returns, whatever else is out, and leaves a sound kernel.
  pub free-IsSound :
      {s : Kernel} (before after : List Block) (p k : ℕ)
      → IsSound start pool s
      → s.blocks ≡ before ++ (p, k) ∷ after
      → (h : Heap) × (free (pages pool + 1) s.heap p ≡ some h)
        × IsSound start pool (record { heap = h; blocks = before ++ after })
  free-IsSound {s} before after p k v e =
      let m = s.heap.memory in
      let headed : Headed m (before ++ (p, k) ∷ after) = rw e at v.headed in
      let (hb, hc) = Headed-append m before ((p, k) ∷ after) headed in
      let short = IsWell-Short v.well (pages pool) (omega arith) (omega arith) in
      let r =
        free-Leaves {held' = held_by (before ++ after)} v.well (pages pool + 1) k p (hc.0) short
          (hc.1) (λ x. ap (λ bs. held_by bs x) e ∙ held_beside before after p k x) in
      let rest = append-Headed m before after hb (hc.2) in
      (
        r.heap,
        r.returned,
        record {
          lists = r.lists_after;
          well = r.well;
          headed =
              Headed-frame m r.heap.memory (before ++ after) rest
                (λ x y. ap (λ b. b.size) (r.untouched x y));
        },
      )

  -- The order of the blocks that are out does not matter.
  pub IsSound-first :
      (heap : Heap) (before after : List Block) (b : Block)
      → IsSound start pool (record { heap = heap; blocks = before ++ b ∷ after })
      → IsSound start pool (record { heap = heap; blocks = b ∷ before ++ after })
  IsSound-first heap before after (p, k) v =
      let (hb, hc) = Headed-append heap.memory before ((p, k) ∷ after) v.headed in
      record {
        lists = v.lists;
        well =
            IsWell-same v.well (λ x. refl) (λ j. refl) (λ j. refl)
              (λ x. omega (arith, held_beside before after p k x));
        headed = (hc.0, hc.1, append-Headed heap.memory before after hb (hc.2));
      }

  -- An allocation that does not fail leaves a sound kernel with the block out.
  pub alloc-IsSound :
      {s : Kernel} (size : ℕ)
      → IsSound start pool s
      → (allocate s.heap size).0 ≢ null
      → IsSound start pool (record {
        heap = (allocate s.heap size).1;
        blocks = ((allocate s.heap size).0, find_order size) ∷ s.blocks;
      })
  alloc-IsSound {s} size v got = elim (allocate-Served v.well size) [
    | inl (none_free, e) ↦ absurd (got (ap (λ r. r.0) e))
    | inr r ↦ record {
      lists = r.lists_after;
      well = IsWell-same r.well (λ x. refl) (λ j. refl) (λ j. refl) (λ x. omega arith);
      headed = (
        (find_order-Fits size).bounded,
        r.header,
        Headed-frame s.heap.memory (allocate s.heap size).1.memory s.blocks v.headed
            (λ x y. ap (λ b. b.size) (r.untouched x y)),
      );
    }
  ]

  refused-IsSound :
      {s : Kernel} (size : ℕ)
      → IsSound start pool s
      → (allocate s.heap size).0 ≡ null
      → IsSound start pool (record s { heap = (allocate s.heap size).1 })
  refused-IsSound {s} size v none = elim (allocate-Served v.well size) [
    | inl (none_free, e) ↦
        subst (λ h. IsSound start pool (record s { heap = h })) (sym (ap (λ r. r.1) e)) v
    | inr r ↦ absurd (r.not_null none)
  ]

  Step-IsSound : {s t : Kernel} → Step pool s t → IsSound start pool s → IsSound start pool t
  Step-IsSound (alloc s size got) v = alloc-IsSound size v got
  Step-IsSound (refused s size none) v = refused-IsSound size v none
  Step-IsSound (give_back s before after p k h e f) v =
      let (h', f', v') = free-IsSound before after p k v e in
      let same : h' ≡ h = cc in
      subst (λ g. IsSound start pool (record { heap = g; blocks = before ++ after })) same v'
  Step-IsSound (write s m same headed) v = record {
    lists = v.lists;
    well = IsWell-write v.well m same;
    headed = headed;
  }

  pub Reach-IsSound_from :
      {s t : Kernel} → Reach pool s t → IsSound start pool s → IsSound start pool t
  Reach-IsSound_from here v = v
  Reach-IsSound_from (next r st) v = Step-IsSound st (Reach-IsSound_from r v)

-- In every state that a kernel can reach from `buddy_allocator_init` by allocations, frees of
-- blocks that are out and writes to such blocks that spare their headers, the free lists are well
-- linked, every block that is out has its size in its header, and free blocks and blocks that are
-- out hold each address of the whole pages of the pool exactly once, and no other address.
pub Reach-IsSound :
    (start pool : ℕ) (h h0 : Heap) {t : Kernel}
    → 0 < start
    → start + pool < 2 ^ 64
    → init h start pool ≡ some h0
    → Reach pool (record { heap = h0; blocks = [] }) t
    → IsSound start pool t
Reach-IsSound start pool h h0 low fits e r =
    let i = init-Leaves h start pool low fits in
    let same : i.heap ≡ h0 = cc (i.returned) in
    Reach-IsSound_from r (
      subst (λ g. IsSound start pool (record { heap = g; blocks = [] })) same
        (record { lists = i.lists_after; well = i.well; headed = tt }))
