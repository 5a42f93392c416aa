-- ===== src/MemManagement/Manager/Requests.antt =====
-- `mem_allocate` and `mem_deallocate` of lab02/zad1/src/mem_management.c on a well-formed manager.
use operating_systems_agh_la.Base.{
  ℕ, ◌+◌, ◌*◌, ◌^◌, ◌<◌, ◌≤◌, ◌≡◌, refl, ◌≢◌, inl, inr, false, some, none, Option, arith, ◌==◌, ltb,
  if◌then◌else◌, ◌||◌, [],
}
use operating_systems_agh_la.Base.Int.{pos}
use operating_systems_agh_la.MemManagement.Heap.{
  Ptr, null, Block, block, Heap, Malloc, IsMalloc, list_node,
}
use operating_systems_agh_la.MemManagement.Heap.Returns
use operating_systems_agh_la.MemManagement.Heap.Returns.{Returns, returns}
use operating_systems_agh_la.MemManagement.BlockList.Chain.{Entries}
use operating_systems_agh_la.MemManagement.BlockList.Remove.{cut, cut-SortedFrom}
use operating_systems_agh_la.MemManagement.Bst.Tree.{leaf, node, addr}
use operating_systems_agh_la.MemManagement.Bst.Insert.{insert}
use operating_systems_agh_la.MemManagement.Bst.Order.{insert-Ordered}
use operating_systems_agh_la.MemManagement.Manager.{
  Strategy, Manager, block_size, blocks_for, mem_init, mem_allocate, mem_deallocate,
}
use operating_systems_agh_la.MemManagement.Manager.Init.{mem_init-IsManager}
use operating_systems_agh_la.MemManagement.Manager.Size.{blocks_for-least}
use operating_systems_agh_la.MemManagement.Manager.Allocate.{Finds, Reuses}
use operating_systems_agh_la.MemManagement.Manager.Cover.{
  within, list_cover, cover-insert, cover-cut, within-at, within-once,
}
use operating_systems_agh_la.MemManagement.Manager.Deallocate.{
  block_at, Found, block_at-Found, Deallocated, mem_deallocate-Deallocated,
}
use operating_systems_agh_la.MemManagement.Manager.Partition.{
  WellManaged, Reserved, local_mem_allocate-Allocation,
}

-- On a well-formed manager whose buffer is not at NULL and whose root has the parent NULL,
-- `mem_allocate` of 1 to all bytes of the buffer, for which the search finds an empty block, ends
-- and reserves `blocks_for size` units as `Reserved` says. Assumes memory for a list node, and for a
-- tree node once one of the tree is free.
pub mem_allocate-Reserved :
    (st : Strategy) (mal : Malloc)
    → IsMalloc mal
    → (h : Heap) (m : Manager) (size : ℕ) (w : WellManaged h null m) → 0 < size
    → size ≤ m.block_quantity * block_size
    → m.buffer_address ≢ null
    → (Finds st h (blocks_for size) w.tree null → ⊥)
    → mal.list_at h ≢ null
    → Reuses mal w.tree
    → Returns
        (λ (address, m') g.
          (size ≤ blocks_for size * block_size)
          × Reserved (blocks_for size) m w.entries address m' g)
        (mem_allocate st mal m (pos size) h)
unfolding mem_allocate
mem_allocate-Reserved st mal law h m size w some_bytes fits buffer found list_memory tree_memory =
    rw allowed (
      Returns.bind
        (local_mem_allocate-Allocation st mal law h m (blocks_for size) w (omega (arith, units.2))
          list_memory tree_memory)
        λ (address, m') g outcome. elim outcome [
          | inl refused ↦ absurd (found refused.0)
          | inr reserved ↦
              rw (not_null address (omega (arith, reserved.above))) (returns (units.0, reserved))
        ])
  where
    allowed : ((size == 0) || ltb (m.block_quantity * block_size) size) ≡ false
    allowed = ground arith

    units :
        (size ≤ blocks_for size * block_size)
        × ((n : ℕ) → size ≤ n * block_size → blocks_for size ≤ n)
        × (0 < blocks_for size)
        × (blocks_for size ≤ m.block_quantity)
    units = blocks_for-least size m.block_quantity some_bytes fits

    not_null : (p : ℕ) → p ≢ null → (p == null) ≡ false
    not_null p ne = ground arith

-- What `mem_deallocate` promises: an address with no reserved block gives 1 and changes nothing;
-- else the result is 0, and the bytes of the block, and no others, are reserved no more.
pub record GivenBack (before : Entries) (d : Block) (code : ℕ) (m' : Manager) (g : Heap)
    : Type 0 where
  pub zero_code : code ≡ 0
  pub parent : Ptr
  pub managed : WellManaged g parent m'
  pub others : (x : ℕ) → list_cover x before ≡ within x d + list_cover x managed.entries
  pub unused :
      (x : ℕ)
      → d.address ≤ x
      → x < d.address + d.block_quantity * block_size
      → list_cover x managed.entries ≡ 0

abbrev pub Deallocation :
    Manager → Heap → Entries → Option (Ptr × Block) → ℕ × Manager → Heap → Type 0
Deallocation m h before none (code, m') g = (code ≡ 1) × (m' ≡ m) × (g ≡ h)
Deallocation m h before (some (p, d)) (code, m') g = GivenBack before d code m' g

Deallocated-Deallocation :
    (mal : Malloc) (h : Heap) (par : Ptr) (m : Manager) (w : WellManaged h par m) (address : ℕ)
    (o : Option (Ptr × Block))
    → block_at address w.entries ≡ o
    → (r : ℕ × Manager) (g : Heap) → Deallocated mal h par m w.tree w.entries o r g
    → Deallocation m h w.entries o r g
Deallocated-Deallocation mal h par m w address none e r g x = x
Deallocated-Deallocation mal h par m w address (some (p, d)) e (code, m') g
      (zero_code, buffer, units, is, freed) =
    record {
      zero_code = zero_code;
      parent = if addr w.tree == null then (mal.stale_tree h).parent else par;
      managed = record {
        tree = insert (mal.tree_at h) d w.tree;
        entries = cut p w.entries;
        is = is;
        ordered = insert-Ordered (mal.tree_at h) d w.tree w.ordered;
        sorted = cut-SortedFrom p 0 w.entries w.sorted;
        covers = λ x.
            rw (buffer, units)
              (omega (arith, w.covers x, cover-insert x (mal.tree_at h) d w.tree, split x));
      };
      others = split;
      unused = λ x from to. omega (
        arith,
        w.covers x,
        split x,
        within-at x d from to,
        within-once x (block m.buffer_address m.block_quantity),
      );
    }
  where
    f : Found h w.entries (p, d)
    f = block_at-Found h address (p, d) w.entries w.is.reserved.chain.3 e

    split : (x : ℕ) → list_cover x w.entries ≡ within x d + list_cover x (cut p w.entries)
    split x = cover-cut h x p (list_node d f.next) w.entries w.is.reserved.chain.3 f.inside f.holds

-- On a well-formed manager, `mem_deallocate` of any address ends and does what `Deallocation` says,
-- when there is memory for a tree node.
pub mem_deallocate-Deallocation :
    (mal : Malloc)
    → IsMalloc mal
    → (h : Heap) (par : Ptr) (m : Manager) (address : ℕ) (w : WellManaged h par m)
    → mal.tree_at h ≢ null
    → Returns
        (Deallocation m h w.entries (block_at address w.entries))
        (mem_deallocate mal m address h)
mem_deallocate-Deallocation mal law h par m address w memory =
    Returns.mono (mem_deallocate-Deallocated mal law h par m w.tree w.entries address w.is memory)
      (Deallocated-Deallocation mal h par m w address (block_at address w.entries) refl)

-- With memory for the bytes of `quantity` units, whose number is an `int`, for a tree node in the
-- heap, and for a list node while the list nodes are those of the heap, `mem_init` returns 0 and
-- leaves a well-formed manager of these `quantity` units, with no reserved block.
pub mem_init-WellManaged :
    (mal : Malloc)
    → IsMalloc mal
    → (h : Heap) (buffer_at : ℕ → Ptr) (quantity : ℕ) (m : Manager) → quantity * block_size < 2 ^ 31
    → buffer_at (quantity * block_size) ≢ null
    → mal.tree_at h ≢ null
    → ((g : Heap) → g.lists ≡ h.lists → mal.list_at g ≢ null)
    → Returns
        (λ (code, m') g.
          (code ≡ 0)
          × (m'.buffer_address ≡ buffer_at (quantity * block_size))
          × (m'.block_quantity ≡ quantity)
          × (par : Ptr) × (w : WellManaged g par m') × (w.entries ≡ []))
        (mem_init mal buffer_at (pos quantity) m h)
mem_init-WellManaged mal law h buffer_at quantity m small some_buffer ne memory =
    Returns.mono (mem_init-IsManager mal law h buffer_at quantity m small some_buffer ne memory)
      λ (code, m') g (ok_code, at, units, is). (
        ok_code,
        at,
        units,
        (mal.stale_tree h).parent,
        record {
          tree =
              node (mal.tree_at h) (block (buffer_at (quantity * block_size)) quantity) leaf leaf;
          entries = [];
          is = is;
          ordered = (tt, tt, tt, tt);
          sorted = tt;
          covers = λ x. rw (at, units) (omega arith);
        },
        refl,
      )
