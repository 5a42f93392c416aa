-- ===== src/MemManagement/Bst/Order.antt =====
-- The search order of the trees of lab02/zad1/src/bst.c.
use operating_systems_agh_la.Base.{ℕ, suc, ◌<◌, ◌≤◌, ◌≡◌, ◌≢◌, inl, inr, arith, ltb, Bool-cases}
use operating_systems_agh_la.MemManagement.Heap.{Ptr, null, Block, Heap, Malloc, IsMalloc}
use operating_systems_agh_la.MemManagement.Heap.Returns
use operating_systems_agh_la.MemManagement.Heap.Returns.{Returns}
use operating_systems_agh_la.MemManagement.Bst.{Bst, bst_add_node}
use operating_systems_agh_la.MemManagement.Bst.Tree.{Tree, leaf, node, count, IsTree}
use operating_systems_agh_la.MemManagement.Bst.Insert.{insert, count-insert}
use operating_systems_agh_la.MemManagement.Bst.Add.{bst_add_node-insert}

-- every block of the tree satisfies `P`
abbrev pub All : (Block → Type 0) → Tree → Type 0
All P leaf = Unit
All P (node a d l r) = P d × All P l × All P r

-- Smaller quantities stand to the left of a node, all others to its right.
abbrev pub Ordered : Tree → Type 0
Ordered leaf = Unit
Ordered (node a d l r) =
    All (λ c. c.block_quantity < d.block_quantity) l
    × All (λ c. d.block_quantity ≤ c.block_quantity) r
    × Ordered l
    × Ordered r

pub All-mono : {P Q : Block → Type 0} (t : Tree) → ((c : Block) → P c → Q c) → All P t → All Q t
All-mono leaf f x = tt
All-mono (node a d l r) f x = (f d x.0, All-mono l f x.1, All-mono r f x.2)

All-insert :
    (P : Block → Type 0) (p : Ptr) (d : Block) (t : Tree) → P d → All P t → All P (insert p d t)
unfolding insert
All-insert P p d leaf x y = (x, tt, tt)
All-insert P p d (node a e l r) x y = elim (Bool-cases (ltb d.block_quantity e.block_quantity)) [
  | inl lt ↦ rw lt (y.0, All-insert P p d l x y.1, y.2)
  | inr ge ↦ rw ge (y.0, y.1, All-insert P p d r x y.2)
]

-- The plain insertion keeps the search order.
pub insert-Ordered : (p : Ptr) (d : Block) (t : Tree) → Ordered t → Ordered (insert p d t)
unfolding insert
insert-Ordered p d leaf o = (tt, tt, tt, tt)
insert-Ordered p d (node a e l r) o = elim (Bool-cases (ltb d.block_quantity e.block_quantity)) [
  | inl lt ↦ rw lt (
    All-insert (λ c. c.block_quantity < e.block_quantity) p d l (ground arith) o.0,
    o.1,
    insert-Ordered p d l o.2,
    o.3,
  )
  | inr ge ↦ rw ge (
    o.0,
    All-insert (λ c. e.block_quantity ≤ c.block_quantity) p d r (ground arith) o.1,
    o.2,
    insert-Ordered p d r o.3,
  )
]

-- `b` is a well-formed tree in search order with `n` nodes.
abbrev pub IsOrderedTree : Heap → ℕ → Bst → Type 0
IsOrderedTree h n b = (par : Ptr) × (t : Tree) × IsTree h par b t × Ordered t × (count t ≡ n)

-- When `malloc` has memory for a node, `bst_add_node` on a tree in search order ends and leaves a
-- well-formed tree in search order, with one node more.
pub bst_add_node-Ordered :
    (m : Malloc)
    → IsMalloc m
    → (d : Block) (h : Heap) (par : Ptr) {b : Bst} (t : Tree) → IsTree h par b t
    → Ordered t
    → m.tree_at h ≢ null
    → Returns (λ r g. IsOrderedTree g (suc (count t)) r.1) (bst_add_node m b d h)
bst_add_node-Ordered m law d h par t is ordered memory =
    Returns.mono (bst_add_node-insert m law d h par t is memory) λ r g added. (
      _,
      insert (m.tree_at h) d t,
      added.tree,
      insert-Ordered (m.tree_at h) d t ordered,
      count-insert (m.tree_at h) d t,
    )
