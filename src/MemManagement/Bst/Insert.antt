-- ===== src/MemManagement/Bst/Insert.antt =====
-- The insertion that `bst_add_node` of lab02/zad1/src/bst.c should perform, on plain trees.
use operating_systems_agh_la.Base.{
  suc, ◌≡◌, refl, inl, inr, true, false, ◌||◌, arith, ◌==◌, ltb, Bool-cases, if◌then◌else◌,
}
use operating_systems_agh_la.MemManagement.Heap.{Ptr, Block}
use operating_systems_agh_la.MemManagement.Bst.Tree.{Tree, leaf, node, has, count, Distinct}

-- The new block goes left of larger ones, and right of the others.
unfoldable pub insert : Ptr → Block → Tree → Tree
insert p d leaf = node p d leaf leaf
insert p d (node a e l r) =
    if ltb d.block_quantity e.block_quantity
    then node a e (insert p d l) r
    else node a e l (insert p d r)

pub count-insert : (p : Ptr) (d : Block) (t : Tree) → count (insert p d t) ≡ suc (count t)
unfolding insert
count-insert p d leaf = refl
count-insert p d (node a e l r) = ground (arith, count-insert p d l, count-insert p d r)

pub has-insert : (b p : Ptr) (d : Block) (t : Tree) → has b (insert p d t) ≡ ((b == p) || has b t)
unfolding insert
has-insert b p d leaf = refl
has-insert b p d (node a e l r) = ground (arith, has-insert b p d l, has-insert b p d r)

pub insert-Distinct :
    (p : Ptr) (d : Block) (t : Tree) → Distinct t → has p t ≡ false → Distinct (insert p d t)
unfolding insert
insert-Distinct p d leaf di out = (refl, refl, λ b i. refl, tt, tt)
insert-Distinct p d (node a e l r) di out =
    elim (Bool-cases (ltb d.block_quantity e.block_quantity)) [
      | inl lt ↦ rw lt (
        ground (arith, has-insert a p d l),
        di.1,
        λ b i. ground (arith, has-insert b p d l, di.2 b),
        insert-Distinct p d l di.3 (ground arith),
        di.4,
      )
      | inr ge ↦ rw ge (
        di.0,
        ground (arith, has-insert a p d r),
        λ b i. ground (arith, has-insert b p d r, di.2 b),
        di.3,
        insert-Distinct p d r di.4 (ground arith),
      )
    ]

pub apart_sides :
    (b : Ptr) (l r : Tree)
    → ((c : Ptr) → has c l ≡ true → has c r ≡ false)
    → has b r ≡ true
    → has b l ≡ false
apart_sides b l r di i = elim (Bool-cases (has b l)) [ inl q ↦ cc (i, di b q) | inr q ↦ q ]

-- An address apart from the new node and from a tree.
pub apart :
    (b p : Ptr) (t u : Tree)
    → has b t ≡ true
    → has p t ≡ false
    → has b u ≡ false
    → ((b == p) || has b u) ≡ false
apart b p t u i o q = ground arith

pub apart_root :
    (a p : Ptr) (d : Block) (l r u : Tree)
    → has p (node a d l r) ≡ false
    → has a u ≡ false
    → ((a == p) || has a u) ≡ false
apart_root a p d l r u o q = ground arith
