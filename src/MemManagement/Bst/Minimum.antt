-- ===== src/MemManagement/Bst/Minimum.antt =====
-- The least node of a tree of lab02/zad1/src/bst.c, and the loop of `bst_delete_node` that finds it.
use operating_systems_agh_la.Base.{ℕ, zero, suc, ◌<◌, ◌≡◌, refl, false, arith, ◌==◌}
use operating_systems_agh_la.MemManagement.Heap.{Ptr, Block, Heap, ok}
use operating_systems_agh_la.MemManagement.Bst.{Bst, leftmost}
use operating_systems_agh_la.MemManagement.Bst.Tree.{
  Tree, leaf, node, addr, count, TreeAt, load_tree-ok, ne_null,
}
use operating_systems_agh_la.MemManagement.Bst.Count.{hits}
use operating_systems_agh_la.MemManagement.Bst.Context.{
  Context, top, in_left, in_right, plug, up, around,
}
use operating_systems_agh_la.MemManagement.Bst.Transplant.{rooted, Rootless}

-- The least node of the tree with the root `a`, `d` and the subtrees `l` and `r`, and its block.
abbrev pub least : Ptr → Block → Tree → Tree → Ptr × Block
least a d leaf r = (a, d)
least a d (node b e x y) r = least b e x y

-- The same tree without that node.
abbrev pub drop_least : Ptr → Block → Tree → Tree → Tree
drop_least a d leaf r = r
drop_least a d (node b e x y) r = node a d (drop_least b e x y) r

pub leftmost-least :
    (k : ℕ) (h : Heap) (par a : Ptr) (d : Block) (l r : Tree)
    → count (node a d l r) < k
    → TreeAt h par (node a d l r)
    → leftmost k a h ≡ ok (least a d l r).0 h
unfolding leftmost
leftmost-least zero h par a d l r fuel at = absurd (omega arith)
leftmost-least (suc k) h par a d leaf r fuel at = rw (load_tree-ok h at.0 at.1) refl
leftmost-least (suc k) h par a d (node b e x y) r fuel at =
    rw (load_tree-ok h at.0 at.1, ne_null at.2.0) (leftmost-least k h a b e x y (omega arith) at.2)

abbrev pub NotTop : Context → Type 0
NotTop top = ⊥
NotTop (in_left a d r c) = Unit
NotTop (in_right a d l c) = Unit

-- The place of the least node, below the place `c`.
pub record LeastPlace (c : Context) (a : Ptr) (d : Block) (l r : Tree) : Type 0 where
  pub place : Context
  pub right : Tree
  pub whole :
      plug place (node (least a d l r).0 (least a d l r).1 leaf right) ≡ plug c (node a d l r)
  pub rest : plug place right ≡ plug c (drop_least a d l r)
  pub below : NotTop place

pub least_place :
    (c : Context) → NotTop c → (a : Ptr) (d : Block) (l r : Tree) → LeastPlace c a d l r
least_place c low a d leaf r = record {
  place = c;
  right = r;
  whole = refl;
  rest = refl;
  below = low;
}
least_place c low a d (node b e x y) r =
    let p = least_place (in_left a d r c) tt b e x y in
    record { place = p.place; right = p.right; whole = p.whole; rest = p.rest; below = p.below }

pub NotTop-Rootless : (par : Ptr) (c : Context) → NotTop c → Rootless par c
NotTop-Rootless par top low = elim low [ ]
NotTop-Rootless par (in_left a d r c) low = tt
NotTop-Rootless par (in_right a d l c) low = tt

pub rooted-NotTop : (c : Context) (b : Bst) (y : Ptr) → NotTop c → rooted c b y ≡ b
rooted-NotTop top b y low = elim low [ ]
rooted-NotTop (in_left a d r c) b y low = refl
rooted-NotTop (in_right a d l c) b y low = refl

pub up-NotTop : (par p : Ptr) (c : Context) → NotTop c → around p c ≡ 0 → (up par c == p) ≡ false
unfolding hits
up-NotTop par p top low o = elim low [ ]
up-NotTop par p (in_left a d r c) low o = ground arith
up-NotTop par p (in_right a d l c) low o = ground arith

same_addr : (c : Context) (t u : Tree) → addr t ≡ addr u → addr (plug c t) ≡ addr (plug c u)
same_addr top t u e = e
same_addr (in_left a d r c) t u e = same_addr c (node a d t r) (node a d u r) refl
same_addr (in_right a d l c) t u e = same_addr c (node a d l t) (node a d l u) refl

-- A tree keeps its root when a place below the root changes.
pub addr-plug : (c : Context) (t u : Tree) → NotTop c → addr (plug c t) ≡ addr (plug c u)
addr-plug top t u low = elim low [ ]
addr-plug (in_left a d r c) t u low = same_addr c (node a d t r) (node a d u r) refl
addr-plug (in_right a d l c) t u low = same_addr c (node a d l t) (node a d l u) refl
