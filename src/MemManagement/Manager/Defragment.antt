-- ===== src/MemManagement/Manager/Defragment.antt =====
-- `local_mem_defragmentation` of lab02/zad1/src/mem_management.c: what it really rebuilds.
use operating_systems_agh_la.Base.{
  ℕ, suc, ◌+◌, ◌-◌, ◌/◌, ◌<◌, ◌≡◌, refl, ap, ◌∙◌, ◌≢◌, true, false, none, some, [], ◌∷◌, arith,
  ◌==◌, ltb, length,
}
use operating_systems_agh_la.MemManagement.Heap.{
  Ptr, null, Block, block, list_node, Heap, Malloc, IsMalloc, fault, load_list,
}
use operating_systems_agh_la.MemManagement.Heap.Returns
use operating_systems_agh_la.MemManagement.Heap.Returns.{Returns, returns}
use operating_systems_agh_la.MemManagement.BlockList.Chain.{Entries, IsList, load_list-ok, ne_null}
use operating_systems_agh_la.MemManagement.Bst.{Bst, bst_init}
use operating_systems_agh_la.MemManagement.Bst.Tree.{Tree, leaf, node, IsTree}
use operating_systems_agh_la.MemManagement.Bst.Insert.{insert}
use operating_systems_agh_la.MemManagement.Bst.Add.{bst_add_node-insert}
use operating_systems_agh_la.MemManagement.Bst.Finish.{Freed, bst_finish-Freed}
use operating_systems_agh_la.MemManagement.Manager.{
  Manager, block_size, limit, skip_first, skip_more, refill, local_mem_defragmentation,
}
use operating_systems_agh_la.MemManagement.Manager.Parts.{IsManager, IsList-lists}

-- `malloc` has memory for a tree node once the tree `t` of the heap `h` is freed.
abbrev pub MemoryWithout : Malloc → Tree → Heap → Type 0
MemoryWithout mal t h = (g : Heap) → Freed t h g → mal.tree_at g ≢ null

-- The same when one node has been allocated since.
abbrev pub MemoryAfter : Malloc → Tree → Heap → Type 0
MemoryAfter mal t h =
    (g g' : Heap)
    → Freed t h g
    → ((a : Ptr) → a ≢ mal.tree_at g → g'.trees a ≡ g.trees a)
    → mal.tree_at g' ≢ null

-- One node, for the gap between `begin` and `end`.
abbrev pub IsGap : Heap → Bst → (begin end : ℕ) → Type 0
IsGap g e begin end =
    (p : Ptr) × (par : Ptr) × IsTree g par e
      (node p (block begin ((end - begin) / block_size)) leaf leaf)

abbrev no_tree : Bst
no_tree = record { root = null; size = 0 }

module _ (mal : Malloc) (law : IsMalloc mal) where
  -- The first round of the second loop, in an empty tree.
  refill_many :
      (k : ℕ) (h : Heap) (begin end : ℕ) (w : Ptr) (d : Block) (next : Ptr)
      → mal.tree_at h ≢ null
      → begin < end
      → 0 < d.block_quantity
      → w ≢ null
      → h.lists w ≡ some (list_node d next)
      → next ≢ null
      → Returns
          (λ (e, left) g.
            (left ≡ none)
            × IsGap g e begin end
            × (g.lists ≡ h.lists)
            × ((a : Ptr) → a ≢ mal.tree_at h → g.trees a ≡ h.trees a))
          (refill (suc (suc k)) mal no_tree begin end w h)
  unfolding refill skip_more insert
  refill_many k h begin end w d next memory gap some_units ne at ne' =
      rw (ne_null ne, lt)
        (Returns.bind
          (bst_add_node-insert mal law (block begin ((end - begin) / block_size)) h null leaf
            record { root = refl; nodes = tt; distinct = tt; size = refl } memory)
          λ _ g added.
            rw
              (
                load_list-ok g {d = d} {old = next} ne (ap (λ f. f w) added.same.lists ∙ at),
                moved,
                ne_null ne',
                past,
              )
              (returns (
                refl,
                (mal.tree_at h, (mal.stale_tree h).parent, added.tree),
                added.same.lists,
                λ a o. added.same.trees a (ground arith),
              )))
    where
      lt : ltb begin end ≡ true
      lt = ground arith

      moved : (end + d.block_quantity == end) ≡ false
      moved = ground arith

      past : ltb (end + d.block_quantity) end ≡ false
      past = ground arith

  refill_one :
      (k : ℕ) (h : Heap) (begin end : ℕ) (w : Ptr) (d : Block)
      → mal.tree_at h ≢ null
      → begin < end
      → 0 < d.block_quantity
      → w ≢ null
      → h.lists w ≡ some (list_node d null)
      → Returns
          (λ (e, left) g.
            (left ≡ some (end + d.block_quantity))
            × IsGap g e begin end
            × (g.lists ≡ h.lists)
            × ((a : Ptr) → a ≢ mal.tree_at h → g.trees a ≡ h.trees a))
          (refill (suc (suc k)) mal no_tree begin end w h)
  unfolding refill skip_more insert
  refill_one k h begin end w d memory gap some_units ne at =
      rw (ne_null ne, lt)
        (Returns.bind
          (bst_add_node-insert mal law (block begin ((end - begin) / block_size)) h null leaf
            record { root = refl; nodes = tt; distinct = tt; size = refl } memory)
          λ _ g added.
            rw (load_list-ok g {d = d} {old = null} ne (ap (λ f. f w) added.same.lists ∙ at), moved)
              (returns (
                refl,
                (mal.tree_at h, (mal.stale_tree h).parent, added.tree),
                added.same.lists,
                λ a o. added.same.trees a (ground arith),
              )))
    where
      lt : ltb begin end ≡ true
      lt = ground arith

      moved : (end + d.block_quantity == end) ≡ false
      moved = ground arith

  -- With no reserved block `local_mem_defragmentation` reads through NULL.
  pub local_mem_defragmentation-fault :
      (h : Heap) (par : Ptr) (m : Manager) (t : Tree)
      → IsManager h par m t []
      → local_mem_defragmentation mal m h ≡ fault
  unfolding local_mem_defragmentation load_list
  local_mem_defragmentation-fault h par m t is =
      rw (load_list-ok h is.reserved.chain.0 is.reserved.chain.1)

  -- With a gap before the first of two or more reserved blocks, `local_mem_defragmentation` stops
  -- with its error message behind that gap: the tree holds the gap alone, and every other empty
  -- block is lost. The reserved blocks stay.
  pub local_mem_defragmentation-lost :
      (h : Heap) (par : Ptr) (m : Manager) (t : Tree) (x y : Ptr × Block) (xs : Entries)
      → MemoryWithout mal t h
      → IsManager h par m t (x ∷ y ∷ xs)
      → m.buffer_address < x.1.address
      → 0 < x.1.block_quantity
      → Returns
          (λ m' g.
            IsGap g m'.empty_blocks m.buffer_address x.1.address
            × IsList g m'.reserved_blocks (x ∷ y ∷ xs))
          (local_mem_defragmentation mal m h)
  unfolding local_mem_defragmentation skip_first bst_init
  local_mem_defragmentation-lost h par m t x y xs memory is gap some_units =
      rw
        (
          load_list-ok h is.reserved.chain.0 is.reserved.chain.1,
          load_list-ok h is.reserved.chain.3.0 is.reserved.chain.3.1,
          rounds,
          before,
        )
        (Returns.bind (bst_finish-Freed h par t is.empty) λ e g (emptied, freed). rw rounds (
          Returns.bind
            (refill_many (length xs + 1) g m.buffer_address x.1.address x.0 x.1 y.0 (memory g freed)
              gap some_units is.reserved.chain.3.0
              (ap (λ f. f x.0) freed.same.lists ∙ is.reserved.chain.3.1) is.reserved.chain.3.3.0)
            λ (e', left) g' (stopped, is_gap, same, apart).
              rw stopped
                (returns (is_gap, IsList-lists h g' is.reserved (same ∙ freed.same.lists)))))
    where
      rounds : m.reserved_blocks.size + 1 ≡ suc (suc (length xs + 1))
      rounds = omega (arith, is.reserved.size)

      before : (m.buffer_address == x.1.address) ≡ false
      before = ground arith

  -- With a gap before a single reserved block, it rebuilds the gap and a second empty block that
  -- starts `block_quantity` bytes behind the start of the reserved block, not behind its end.
  pub local_mem_defragmentation-overlap :
      (h : Heap) (par : Ptr) (m : Manager) (t : Tree) (x : Ptr × Block)
      → MemoryWithout mal t h
      → MemoryAfter mal t h
      → IsManager h par m t (x ∷ [])
      → m.buffer_address < x.1.address
      → 0 < x.1.block_quantity
      → x.1.address + x.1.block_quantity < limit m
      → Returns
          (λ m' g.
            (p : Ptr) × (q : Ptr) × (par' : Ptr) × IsTree g par' m'.empty_blocks (
              insert q
                (block
                  (x.1.address + x.1.block_quantity)
                  ((limit m - (x.1.address + x.1.block_quantity)) / block_size))
                (node p
                  (block m.buffer_address ((x.1.address - m.buffer_address) / block_size))
                  leaf
                  leaf))
            × IsList g m'.reserved_blocks (x ∷ []))
          (local_mem_defragmentation mal m h)
  unfolding local_mem_defragmentation skip_first bst_init
  local_mem_defragmentation-overlap h par m t x memory after is gap some_units room =
      rw
        (
          load_list-ok h is.reserved.chain.0 is.reserved.chain.1,
          load_list-ok h is.reserved.chain.3.0 is.reserved.chain.3.1,
          rounds,
          before,
        )
        (Returns.bind (bst_finish-Freed h par t is.empty) λ e g (emptied, freed). rw rounds (
          Returns.bind
            (refill_one 0 g m.buffer_address x.1.address x.0 x.1 (memory g freed) gap some_units
              is.reserved.chain.3.0 (ap (λ f. f x.0) freed.same.lists ∙ is.reserved.chain.3.1))
            λ (e', left) g' (ended, (p, par', is_tree), same, apart).
              rw (ended, below)
                (Returns.bind
                  (bst_add_node-insert mal law _ g' par' _ is_tree (after g g' freed apart))
                  λ _ g'' added. returns (
                    p,
                    mal.tree_at g',
                    _,
                    added.tree,
                    IsList-lists h g'' is.reserved (added.same.lists ∙ same ∙ freed.same.lists),
                  ))))
    where
      rounds : m.reserved_blocks.size + 1 ≡ suc (suc 0)
      rounds = omega (arith, is.reserved.size)

      before : (m.buffer_address == x.1.address) ≡ false
      before = ground arith

      below : ltb (x.1.address + x.1.block_quantity) (limit m) ≡ true
      below = ground arith
