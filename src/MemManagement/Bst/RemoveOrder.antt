-- ===== src/MemManagement/Bst/RemoveOrder.antt =====
-- The search order after `bst_delete_node` of lab02/zad1/src/bst.c.
use operating_systems_agh_la.Base.{suc, ◌-◌, ◌<◌, ◌≤◌, ◌≡◌, inl, inr, true, arith, ◌==◌, Bool-cases}
use operating_systems_agh_la.MemManagement.Heap.{Ptr, null, Block, Heap}
use operating_systems_agh_la.MemManagement.Heap.Returns
use operating_systems_agh_la.MemManagement.Heap.Returns.{Returns}
use operating_systems_agh_la.MemManagement.Bst.{Bst, bst_delete_node}
use operating_systems_agh_la.MemManagement.Bst.Tree.{Tree, leaf, node, addr, has, count, IsTree}
use operating_systems_agh_la.MemManagement.Bst.Order.{All, All-mono, Ordered, IsOrderedTree}
use operating_systems_agh_la.MemManagement.Bst.Minimum.{least, drop_least}
use operating_systems_agh_la.MemManagement.Bst.Delete.{join}
use operating_systems_agh_la.MemManagement.Bst.Remove.{remove, count-join, bst_delete_node-remove}

-- What holds of every block of a tree, holds of the least one and of the others.
All-least :
    (P : Block → Type 0) (a : Ptr) (d : Block) (l r : Tree)
    → All P (node a d l r)
    → P (least a d l r).1 × All P (drop_least a d l r)
All-least P a d leaf r x = (x.0, x.2)
All-least P a d (node b e v w) r x =
    let (m, rest) = All-least P b e v w x.1 in (m, (x.0, rest, x.2))

-- The tree without its least block is in order, and no block of it is smaller than that one.
Ordered-least :
    (a : Ptr) (d : Block) (l r : Tree)
    → Ordered (node a d l r)
    → Ordered (drop_least a d l r)
      × All (λ c. (least a d l r).1.block_quantity ≤ c.block_quantity) (drop_least a d l r)
Ordered-least a d leaf r o = (o.3, o.1)
Ordered-least a d (node b e v w) r o =
    let (rest, above) = Ordered-least b e v w o.2 in
    let (small, smaller) = All-least (λ c. c.block_quantity < d.block_quantity) b e v w o.0 in
    ((smaller, o.1, rest, o.3), (omega arith, above, All-mono r (λ c le. omega arith) o.1))

All-join : (P : Block → Type 0) (l r : Tree) → All P l → All P r → All P (join l r)
All-join P leaf r x y = y
All-join P (node a d v w) leaf x y = x
All-join P (node a d v w) (node b e s t) x y = let (m, rest) = All-least P b e s t y in (m, x, rest)

Ordered-join : (p : Ptr) (d : Block) (l r : Tree) → Ordered (node p d l r) → Ordered (join l r)
Ordered-join p d leaf r o = o.3
Ordered-join p d (node a e v w) leaf o = o.2
Ordered-join p d (node a e v w) (node b f s t) o =
    let (rest, above) = Ordered-least b f s t o.3 in
    let (large, larger) = All-least (λ c. d.block_quantity ≤ c.block_quantity) b f s t o.1 in
    (All-mono (node a e v w) (λ c lt. omega arith) o.0, above, o.2, rest)

pub All-remove : (P : Block → Type 0) (p : Ptr) (t : Tree) → All P t → All P (remove p t)
unfolding remove
All-remove P p leaf x = tt
All-remove P p (node a d l r) x = elim (Bool-cases (p == a)) [
  | inl e ↦ rw e (All-join P l r x.1 x.2)
  | inr e ↦ elim (Bool-cases (has p l)) [
    | inl i ↦ rw (e, i) (x.0, All-remove P p l x.1, x.2)
    | inr o ↦ rw (e, o) (x.0, x.1, All-remove P p r x.2)
  ]
]

pub remove-Ordered : (p : Ptr) (t : Tree) → Ordered t → Ordered (remove p t)
unfolding remove
remove-Ordered p leaf o = tt
remove-Ordered p (node a d l r) o = elim (Bool-cases (p == a)) [
  | inl e ↦ rw e (Ordered-join a d l r o)
  | inr e ↦ elim (Bool-cases (has p l)) [
    | inl i ↦
        rw (e, i)
          (
            All-remove (λ c. c.block_quantity < d.block_quantity) p l o.0,
            o.1,
            remove-Ordered p l o.2,
            o.3,
          )
    | inr u ↦
        rw (e, u)
          (
            o.0,
            All-remove (λ c. d.block_quantity ≤ c.block_quantity) p r o.1,
            o.2,
            remove-Ordered p r o.3,
          )
  ]
]

pub count-remove : (p : Ptr) (t : Tree) → has p t ≡ true → suc (count (remove p t)) ≡ count t
unfolding remove
count-remove p leaf i = cc
count-remove p (node a d l r) i = elim (Bool-cases (p == a)) [
  | inl e ↦ rw e (omega (arith, count-join l r))
  | inr e ↦ elim (Bool-cases (has p l)) [
    | inl at ↦ rw (e, at) (omega (arith, count-remove p l at))
    | inr o ↦ rw (e, o) (omega (arith, count-remove p r (ground arith)))
  ]
]

-- On a tree in search order, `bst_delete_node` of one of its nodes ends and leaves a well-formed
-- tree in search order with one node less, if the node is not the root or the root's `parent` is
-- NULL.
pub bst_delete_node-Ordered :
    (h : Heap) (par : Ptr) {b : Bst} (t : Tree) (p : Ptr)
    → IsTree h par b t
    → Ordered t
    → has p t ≡ true
    → (addr t ≡ p → par ≡ null)
    → Returns (λ s g. IsOrderedTree g (count t - 1) s) (bst_delete_node b p h)
bst_delete_node-Ordered h par t p is ordered i rootless =
    Returns.mono (bst_delete_node-remove h par t p is i rootless) λ s g deleted.
      (par, remove p t, deleted.tree, remove-Ordered p t ordered, omega (arith, count-remove p t i))
