-- ===== src/MemManagement/Manager/Cover.antt =====
-- Which bytes the blocks of lab02/zad1/src/mem_management.c cover.
use operating_systems_agh_la.Base.{
  ℕ, ◌+◌, ◌-◌, ◌*◌, ◌<◌, ◌≤◌, ◌≡◌, refl, sym, inl, inr, true, some, arith, ◌==◌, ltb, leb,
  Bool-cases, if◌then◌else◌, ◌∙◌, ap, [], ◌∷◌, ◌&&◌,
}
use mathlib.Core.Option.{some-injective}
use operating_systems_agh_la.MemManagement.Heap.{
  Ptr, Block, block, BstNode, bst_node, ListNode, list_node, Heap,
}
use operating_systems_agh_la.MemManagement.BlockList.Chain
use operating_systems_agh_la.MemManagement.BlockList.Chain.{Entries, Chain, first}
use operating_systems_agh_la.MemManagement.BlockList.Add.{place}
use operating_systems_agh_la.MemManagement.BlockList.Remove.{cut}
use operating_systems_agh_la.MemManagement.Bst.Tree.{Tree, leaf, node, addr, has, TreeAt}
use operating_systems_agh_la.MemManagement.Bst.Insert.{insert}
use operating_systems_agh_la.MemManagement.Bst.Minimum.{least, drop_least}
use operating_systems_agh_la.MemManagement.Bst.Delete.{join}
use operating_systems_agh_la.MemManagement.Bst.Remove.{remove}
use operating_systems_agh_la.MemManagement.Manager.{block_size}

-- 1 if the byte `x` is in the block
unfoldable pub within : ℕ → Block → ℕ
within x d = if leb d.address x && ltb x (d.address + d.block_quantity * block_size) then 1 else 0

-- in how many blocks of a tree, or of a list, the byte is
abbrev pub tree_cover : ℕ → Tree → ℕ
tree_cover x leaf = 0
tree_cover x (node a d l r) = within x d + (tree_cover x l + tree_cover x r)

abbrev pub list_cover : ℕ → Entries → ℕ
list_cover x [] = 0
list_cover x (e ∷ xs) = within x e.1 + list_cover x xs

pub cover-insert :
    (x : ℕ) (p : Ptr) (d : Block) (t : Tree)
    → tree_cover x (insert p d t) ≡ within x d + tree_cover x t
unfolding insert
cover-insert x p d leaf = omega arith
cover-insert x p d (node a e l r) = elim (Bool-cases (ltb d.block_quantity e.block_quantity)) [
  | inl lt ↦ rw lt (omega (arith, cover-insert x p d l))
  | inr ge ↦ rw ge (omega (arith, cover-insert x p d r))
]

cover-least :
    (x : ℕ) (a : Ptr) (d : Block) (l r : Tree)
    → within x (least a d l r).1 + tree_cover x (drop_least a d l r) ≡ tree_cover x (node a d l r)
cover-least x a d leaf r = omega arith
cover-least x a d (node b e v w) r = omega (arith, cover-least x b e v w)

cover-join : (x : ℕ) (l r : Tree) → tree_cover x (join l r) ≡ tree_cover x l + tree_cover x r
cover-join x leaf r = omega arith
cover-join x (node a d v w) leaf = omega arith
cover-join x (node a d v w) (node b e s t) = omega (arith, cover-least x b e s t)

-- Without the node `p` the tree covers what it covered less the block of `p`.
pub cover-remove :
    (h : Heap) (par : Ptr) (x : ℕ) (p : Ptr) (n : BstNode) (t : Tree)
    → TreeAt h par t
    → has p t ≡ true
    → h.trees p ≡ some n
    → tree_cover x t ≡ within x n.content + tree_cover x (remove p t)
unfolding remove
cover-remove h par x p n leaf at i e = cc
cover-remove h par x p n (node a d l r) at i e = elim (Bool-cases (p == a)) [
  | inl hit ↦ rw (hit, ap (within x) (here hit)) (omega (arith, cover-join x l r))
  | inr miss ↦ elim (Bool-cases (has p l)) [
    | inl in_l ↦ rw (miss, in_l) (omega (arith, cover-remove h a x p n l at.2 in_l e))
    | inr out ↦ rw (miss, out) (omega (arith, cover-remove h a x p n r at.3 (ground arith) e))
  ]
]
  where
    here : (p == a) ≡ true → n.content ≡ d
    here hit =
        ap (λ v. v.content)
          (some-injective n (bst_node d (addr l) (addr r) par)
            (sym e ∙ ap h.trees (same p a hit) ∙ at.1))
      where
        same : (p a : Ptr) → (p == a) ≡ true → p ≡ a
        same p a hit = ground arith

pub cover-place :
    (x : ℕ) (e : Ptr × Block) (xs : Entries)
    → list_cover x (place e xs) ≡ within x e.1 + list_cover x xs
unfolding place
cover-place x e [] = refl
cover-place x e (y ∷ ys) = elim (Bool-cases (ltb y.1.address e.1.address)) [
  | inl lt ↦ rw lt (omega (arith, cover-place x e ys))
  | inr ge ↦ rw ge refl
]

pub cover-cut :
    (h : Heap) (x : ℕ) (p : Ptr) (n : ListNode) (xs : Entries)
    → Chain h xs
    → Chain.has p xs ≡ true
    → h.lists p ≡ some n
    → list_cover x xs ≡ within x n.content + list_cover x (cut p xs)
unfolding cut
cover-cut h x p n [] ch i e = cc
cover-cut h x p n (y ∷ ys) ch i e = elim (Bool-cases (y.0 == p)) [
  | inl hit ↦ rw (hit, ap (within x) (here hit)) refl
  | inr miss ↦ rw miss (omega (arith, cover-cut h x p n ys ch.3 (ground arith) e))
]
  where
    here : (y.0 == p) ≡ true → n.content ≡ y.1
    here hit =
        ap (λ v. v.content)
          (some-injective n (list_node y.1 (first ys)) (sym e ∙ ap h.lists (same p y.0 hit) ∙ ch.1))
      where
        same : (p a : Ptr) → (a == p) ≡ true → p ≡ a
        same p a hit = ground arith

-- A block cut in two.
pub within-split :
    (x a n q : ℕ)
    → q ≤ n
    → within x (block a n) ≡ within x (block a q) + within x (block (a + q * block_size) (n - q))
unfolding within
within-split x a n q le = ground arith

pub within-none : (x a : ℕ) → within x (block a 0) ≡ 0
unfolding within
within-none x a = ground arith

pub within-inside :
    (x : ℕ) (d : Block)
    → 0 < within x d
    → (d.address ≤ x) × (x < d.address + d.block_quantity * block_size)
unfolding within
within-inside x d i = ground arith

pub within-at :
    (x : ℕ) (d : Block)
    → d.address ≤ x
    → x < d.address + d.block_quantity * block_size
    → within x d ≡ 1
unfolding within
within-at x d from to = ground arith

pub within-once : (x : ℕ) (d : Block) → within x d ≤ 1
unfolding within
within-once x d = ground arith
