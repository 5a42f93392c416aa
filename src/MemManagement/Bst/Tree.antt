-- ===== src/MemManagement/Bst/Tree.antt =====
-- Trees of blocks, and what such a tree is in the heap.
use operating_systems_agh_la.Base.{
  ℕ, suc, ◌+◌, ◌≡◌, refl, ◌≢◌, Bool, true, false, ◌||◌, none, some, arith, ◌==◌,
}
use operating_systems_agh_la.MemManagement.Heap.{
  Ptr, null, Block, BstNode, bst_node, Heap, put_tree, ok, load_tree, set_left, set_right,
  set_parent, free_tree,
}
use operating_systems_agh_la.MemManagement.Bst.{Bst}

pub data Tree : Type 0 where
  leaf : Tree
  node : Ptr → Block → Tree → Tree → Tree

abbrev pub addr : Tree → Ptr
addr leaf = null
addr (node a d l r) = a

abbrev pub has : Ptr → Tree → Bool
has b leaf = false
has b (node a d l r) = (b == a) || (has b l || has b r)

abbrev pub count : Tree → ℕ
count leaf = 0
count (node a d l r) = suc (count l + count r)

-- Every node of `t` holds its block and points to its children and its parent, the root to `par`.
abbrev pub TreeAt : Heap → Ptr → Tree → Type 0
TreeAt h par leaf = Unit
TreeAt h par (node a d l r) =
    (a ≢ null) × (h.trees a ≡ some (bst_node d (addr l) (addr r) par)) × TreeAt h a l × TreeAt h a r

-- No address stands at two places of the tree.
abbrev pub Distinct : Tree → Type 0
Distinct leaf = Unit
Distinct (node a d l r) =
    (has a l ≡ false)
    × (has a r ≡ false)
    × ((b : Ptr) → has b l ≡ true → has b r ≡ false)
    × Distinct l
    × Distinct r

-- The tree in the heap under a handle. `par` is what the root has for a parent, which should be
-- NULL.
pub record IsTree (h : Heap) (par : Ptr) (b : Bst) (t : Tree) : Type 0 where
  pub root : b.root ≡ addr t
  pub nodes : TreeAt h par t
  pub distinct : Distinct t
  pub size : b.size ≡ count t

-- `g` differs from `h` at most in the tree nodes at which `p` holds.
pub record SameOutside (p : Ptr → Bool) (h g : Heap) : Type 0 where
  pub trees : (a : Ptr) → p a ≡ false → g.trees a ≡ h.trees a
  pub lists : g.lists ≡ h.lists

pub frame :
    (h g : Heap) (par : Ptr) (t : Tree)
    → TreeAt h par t
    → ((a : Ptr) → has a t ≡ true → g.trees a ≡ h.trees a)
    → TreeAt g par t
frame h g par leaf at same = tt
frame h g par (node a d l r) at same = (
  at.0,
  ground (arith, same a),
  frame h g a l at.2 (λ b i. same b (ground arith)),
  frame h g a r at.3 (λ b i. same b (ground arith)),
)

pub not-has_of_none :
    (h : Heap) (par : Ptr) (t : Tree) (a : Ptr)
    → TreeAt h par t
    → h.trees a ≡ none
    → has a t ≡ false
not-has_of_none h par leaf a at unused = refl
not-has_of_none h par (node b d l r) a at unused =
    ground (arith, not-has_of_none h b l a at.2, not-has_of_none h b r a at.3)

module _ (h : Heap) {p : Ptr} {n : BstNode} (ne : p ≢ null) (e : h.trees p ≡ some n) where
  pub load_tree-ok : load_tree p h ≡ ok n h
  unfolding load_tree
  load_tree-ok = ground arith

  pub set_left-ok : (q : Ptr) → set_left p q h ≡ ok tt (put_tree h p (some (record n { left = q })))
  unfolding set_left
  set_left-ok q = rw load_tree-ok

  pub set_right-ok :
      (q : Ptr) → set_right p q h ≡ ok tt (put_tree h p (some (record n { right = q })))
  unfolding set_right
  set_right-ok q = rw load_tree-ok

  pub set_parent-ok :
      (q : Ptr) → set_parent p q h ≡ ok tt (put_tree h p (some (record n { parent = q })))
  unfolding set_parent
  set_parent-ok q = rw load_tree-ok

  pub free_tree-ok : free_tree p h ≡ ok tt (put_tree h p none)
  unfolding free_tree
  free_tree-ok = rw load_tree-ok

pub ne_null : {p : Ptr} → p ≢ null → (p == null) ≡ false
ne_null ne = ground arith
