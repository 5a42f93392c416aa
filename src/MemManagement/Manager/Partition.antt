-- ===== src/MemManagement/Manager/Partition.antt =====
-- The blocks of lab02/zad1/src/mem_management.c and the buffer.
use operating_systems_agh_la.Base.{
  ℕ, ◌+◌, ◌-◌, ◌*◌, ◌<◌, ◌≤◌, ◌≡◌, ◌≢◌, ◌⊎◌, inl, inr, false, arith, ltb, Bool-cases, ◌∙◌, ap, sym,
}
use operating_systems_agh_la.MemManagement.Heap.{Ptr, null, Block, block, Heap, Malloc, IsMalloc}
use operating_systems_agh_la.MemManagement.Heap.Returns
use operating_systems_agh_la.MemManagement.Heap.Returns.{Returns}
use operating_systems_agh_la.MemManagement.BlockList.Chain.{Entries, SortedFrom}
use operating_systems_agh_la.MemManagement.BlockList.Add.{place, place-SortedFrom}
use operating_systems_agh_la.MemManagement.Bst.Tree.{Tree, TreeAt}
use operating_systems_agh_la.MemManagement.Bst.Insert.{insert}
use operating_systems_agh_la.MemManagement.Bst.Order.{Ordered, insert-Ordered}
use operating_systems_agh_la.MemManagement.Bst.Find.{Suits}
use operating_systems_agh_la.MemManagement.Bst.Remove.{remove}
use operating_systems_agh_la.MemManagement.Bst.RemoveOrder.{remove-Ordered}
use operating_systems_agh_la.MemManagement.Manager.{
  Strategy, Manager, block_size, limit, local_mem_allocate,
}
use operating_systems_agh_la.MemManagement.Manager.Parts.{IsManager}
use operating_systems_agh_la.MemManagement.Manager.Allocate.{
  Finds, with_rest, Granted, Reuses, local_mem_allocate-Allocated,
}
use operating_systems_agh_la.MemManagement.Manager.Cover.{
  within, tree_cover, list_cover, cover-insert, cover-remove, cover-place, within-split,
  within-none, within-inside, within-at, within-once,
}

-- The manager is well formed: the empty blocks are in search order, the reserved ones in the order
-- of their addresses, and each byte of the buffer is in exactly one block, any other byte in none.
pub record WellManaged (h : Heap) (par : Ptr) (m : Manager) : Type 0 where
  pub tree : Tree
  pub entries : Entries
  pub is : IsManager h par m tree entries
  pub ordered : Ordered tree
  pub sorted : SortedFrom 0 entries
  pub covers :
      (x : ℕ)
      → tree_cover x tree + list_cover x entries
        ≡ within x (block m.buffer_address m.block_quantity)

with_rest-Ordered :
    (q : ℕ) (p n : Ptr) (d : Block) (t : Tree) → Ordered t → Ordered (with_rest q p n d t)
with_rest-Ordered q p n d t o = elim (Bool-cases (ltb 0 (d.block_quantity - q))) [
  | inl some_left ↦ rw some_left (
      insert-Ordered n (block (d.address + q * block_size) (d.block_quantity - q)) (remove p t)
        (remove-Ordered p t o))
  | inr all ↦ rw all (remove-Ordered p t o)
]

-- The empty blocks lose the first `q` units of the block that the search found.
cover-with_rest :
    (h : Heap) (par : Ptr) (x q : ℕ) (p n : Ptr) (t : Tree)
    → TreeAt h par t
    → (su : Suits h q t p)
    → tree_cover x t
      ≡ within x (block su.content.content.address q)
        + tree_cover x (with_rest q p n su.content.content t)
cover-with_rest h par x q p n t at su =
    elim (Bool-cases (ltb 0 (su.content.content.block_quantity - q))) [
      | inl some_left ↦ rw some_left (omega (arith, removed, split, inserted))
      | inr all ↦ rw all (omega (arith, removed, split, exact all))
    ]
  where
    d : Block
    d = su.content.content

    removed : tree_cover x t ≡ within x d + tree_cover x (remove p t)
    removed = cover-remove h par x p su.content t at su.inside su.holds

    split :
        within x d
        ≡ within x (block d.address q)
          + within x (block (d.address + q * block_size) (d.block_quantity - q))
    split = within-split x d.address d.block_quantity q su.enough

    inserted :
        tree_cover x
          (insert n (block (d.address + q * block_size) (d.block_quantity - q)) (remove p t))
        ≡ within x (block (d.address + q * block_size) (d.block_quantity - q))
          + tree_cover x (remove p t)
    inserted =
        cover-insert x n (block (d.address + q * block_size) (d.block_quantity - q)) (remove p t)

    exact :
        ltb 0 (d.block_quantity - q) ≡ false
        → within x (block (d.address + q * block_size) (d.block_quantity - q)) ≡ 0
    exact all =
        ap (λ v. within x (block (d.address + q * block_size) v)) (zero_of all)
        ∙ within-none x (d.address + q * block_size)
      where
        zero_of : ltb 0 (d.block_quantity - q) ≡ false → d.block_quantity - q ≡ 0
        zero_of all = ground arith

-- `q` units at `address` are reserved: the manager is well formed and of the same buffer, its
-- reserved blocks are those of before and one of `q` units at `address`, in the order of their
-- addresses, and this block lies in the buffer and in no block that was reserved before.
pub record Reserved (q : ℕ) (m : Manager) (before : Entries) (address : ℕ) (m' : Manager) (g : Heap)
    : Type 0 where
  pub parent : Ptr
  pub managed : WellManaged g parent m'
  pub buffer : m'.buffer_address ≡ m.buffer_address
  pub units : m'.block_quantity ≡ m.block_quantity
  pub entry : Ptr
  pub recorded : managed.entries ≡ place (entry, block address q) before
  pub covered :
      (x : ℕ) → list_cover x managed.entries ≡ within x (block address q) + list_cover x before
  pub above : m.buffer_address ≤ address
  pub below : address + q * block_size ≤ limit m
  pub unused : (x : ℕ) → address ≤ x → x < address + q * block_size → list_cover x before ≡ 0

Granted-Reserved :
    (st : Strategy) (mal : Malloc) (h : Heap) (q : ℕ) (m m' : Manager) (address : ℕ) (g : Heap)
    → 0 < q
    → (w : WellManaged h null m) → Granted st mal h q m w.tree w.entries address m' g
    → Reserved q m w.entries address m' g
Granted-Reserved st mal h q m m' address g some_units w gr = record {
  parent = gr.parent;
  managed = record {
    tree = with_rest q gr.source gr.new d w.tree;
    entries = place (mal.list_at h, block d.address q) w.entries;
    is = record { empty = gr.empty; reserved = gr.reserved };
    ordered = with_rest-Ordered q gr.source gr.new d w.tree w.ordered;
    sorted = place-SortedFrom (mal.list_at h, block d.address q) 0 w.entries (omega arith) w.sorted;
    covers = λ x.
        rw (gr.buffer, gr.units)
          (omega (
            arith,
            w.covers x,
            parts x,
            cover-place x (mal.list_at h, block d.address q) w.entries,
          ));
  };
  buffer = gr.buffer;
  units = gr.units;
  entry = mal.list_at h;
  recorded = ap (λ a. place (mal.list_at h, block a q) w.entries) (sym gr.start);
  covered = λ x. rw gr.start (cover-place x (mal.list_at h, block d.address q) w.entries);
  above = omega (arith, gr.start, (inside d.address (omega arith) (omega arith)).0);
  below =
      omega
        (arith, gr.start, (inside (d.address + q * block_size - 1) (omega arith) (omega arith)).1);
  unused = λ x from to. omega (
    arith,
    here x (omega (arith, gr.start)) (omega (arith, gr.start)),
    parts x,
    w.covers x,
    within-once x (block m.buffer_address m.block_quantity),
  );
}
  where
    d : Block
    d = gr.suits.content.content

    parts :
        (x : ℕ)
        → tree_cover x w.tree
          ≡ within x (block d.address q) + tree_cover x (with_rest q gr.source gr.new d w.tree)
    parts x = cover-with_rest h null x q gr.source gr.new w.tree w.is.empty.nodes gr.suits

    here :
        (x : ℕ) → d.address ≤ x → x < d.address + q * block_size → within x (block d.address q) ≡ 1
    here x from to = within-at x (block d.address q) from to

    inside :
        (x : ℕ)
        → d.address ≤ x
        → x < d.address + q * block_size
        → (m.buffer_address ≤ x) × (x < limit m)
    inside x from to =
        within-inside x (block m.buffer_address m.block_quantity)
          (omega (arith, here x from to, parts x, w.covers x))

-- What `local_mem_allocate` promises: NULL and no change, when the search finds no block; else a
-- new reserved block.
abbrev pub Allocation :
    Strategy → (h : Heap) → ℕ → (m : Manager) → WellManaged h null m → ℕ × Manager → Heap → Type 0
Allocation st h q m w (address, m') g =
    (Finds st h q w.tree null × (address ≡ null) × (m' ≡ m) × (g ≡ h))
    ⊎ Reserved q m w.entries address m' g

-- On a well-formed manager whose root has the parent NULL, `local_mem_allocate` of one unit or more
-- ends and does what `Allocation` says, when there is memory for a list node, and for a tree node
-- once one of the tree is free.
pub local_mem_allocate-Allocation :
    (st : Strategy) (mal : Malloc)
    → IsMalloc mal
    → (h : Heap) (m : Manager) (q : ℕ) (w : WellManaged h null m) → 0 < q
    → mal.list_at h ≢ null
    → Reuses mal w.tree
    → Returns (Allocation st h q m w) (local_mem_allocate st mal m q h)
local_mem_allocate-Allocation st mal law h m q w some_units list_memory tree_memory =
    Returns.mono
      (local_mem_allocate-Allocated st mal law h m w.tree w.entries q w.is w.ordered list_memory
        tree_memory)
      λ (address, m') g outcome. elim outcome [
        | inl refused ↦ inl refused
        | inr granted ↦ inr (Granted-Reserved st mal h q m m' address g some_units w granted)
      ]
