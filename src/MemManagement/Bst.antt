-- ===== src/MemManagement/Bst.antt =====
-- lab02/zad1/src/bst.c: the binary search tree of empty blocks, keyed by their quantity, with
-- parent pointers. A loop runs on `size + 1` rounds.
pub mod Tree
pub mod Insert
pub mod Hang
pub mod Add
pub mod Find
pub mod Finish
pub mod Order
pub mod Count
pub mod Context
pub mod Transplant
pub mod Minimum
pub mod Attach
pub mod TakeOut
pub mod Delete
pub mod Remove
pub mod RemoveOrder
use operating_systems_agh_la.Base.{ℕ, zero, suc, ◌+◌, ◌-◌, ◌==◌, ltb, leb, if◌then◌else◌}
use operating_systems_agh_la.MemManagement.Heap.{
  Ptr, null, Block, Cmd, out_of_fuel, pure, ◌>>=◌, ◌>>◌, load_tree, set_left, set_right, set_parent,
  set_tree_content, free_tree, Malloc, malloc_tree,
}

pub record Bst : Type 0 where
  pub root : Ptr
  pub size : ℕ

unfoldable pub bst_init : Bst → ℕ × Bst
bst_init b = (0, record { root = null; size = 0 })

delete_all_nodes : ℕ → Ptr → Cmd (Unit {0})
delete_all_nodes zero p = λ _. out_of_fuel
delete_all_nodes (suc k) p =
    if p == null
    then pure tt
    else do n ← load_tree p; delete_all_nodes k n.left; delete_all_nodes k n.right; free_tree p

pub bst_finish : Bst → Cmd Bst
unfolding delete_all_nodes
bst_finish b = do delete_all_nodes (b.size + 1) b.root; pure (record { root = null; size = 0 })

-- The loop of `bst_add_node`, and the last node before NULL, which it leaves in `pref_walker`.
pub descend : ℕ → Block → (pref walker : Ptr) → Cmd Ptr
descend zero d pref walker = λ _. out_of_fuel
descend (suc k) d pref walker = if walker == null then pure pref else do
  n ← load_tree walker
  descend k d walker (if ltb d.block_quantity n.content.block_quantity then n.left else n.right)

-- The links of a new node below `pref`.
pub hang : Block → (pref p : Ptr) → Cmd (Unit {0})
hang d pref p = do
  set_parent p pref
  n ← load_tree pref
  if ltb d.block_quantity n.content.block_quantity then set_left pref p else set_right pref p

-- The first component is what the function returns. A new root keeps the `parent` that `malloc`
-- left in it. `pref_walker` starts uninitialised in C, and is set before it is read.
pub bst_add_node : Malloc → Bst → Block → Cmd (ℕ × Bst)
unfolding descend hang
bst_add_node m b d = do
  p ← malloc_tree m
  if p == null then pure (1, b) else do
    set_tree_content p d
    set_left p null
    set_right p null
    if b.root == null then pure (0, record { root = p; size = b.size + 1 }) else do
      pref ← descend (b.size + 1) d b.root b.root
      hang d pref p
      pure (0, record b { size = b.size + 1 })

-- Puts the subtree at `y` in the place of the subtree at `x`.
pub transplant : Bst → (x y : Ptr) → Cmd Bst
transplant b x y = do
  n ← load_tree x
  b' ← if n.parent == null then pure (record b { root = y }) else do
    up ← load_tree n.parent
    if x == up.left then set_left n.parent y else set_right n.parent y
    pure b
  if y == null then pure b' else do n' ← load_tree x; set_parent y n'.parent; pure b'

pub leftmost : ℕ → Ptr → Cmd Ptr
leftmost zero p = λ _. out_of_fuel
leftmost (suc k) p = do n ← load_tree p; if n.left == null then pure p else leftmost k n.left

-- The end of `replace_by_minimum`.
pub take_place : Bst → Ptr → Ptr → Cmd Bst
take_place b p minimum = do
  b' ← transplant b p minimum
  n ← load_tree p
  set_left minimum n.left
  mn ← load_tree minimum
  set_parent mn.left minimum
  pure b'

-- The part of `replace_by_minimum` for a least node below the right child.
pub take_out : Bst → (p minimum right : Ptr) → Cmd Bst
take_out b p minimum right = do
  b' ← transplant b minimum right
  n ← load_tree p
  set_right minimum n.right
  mn ← load_tree minimum
  set_parent mn.right minimum
  pure b'

-- The branch of `bst_delete_node` for a node with two children.
pub replace_by_minimum : Bst → Ptr → Ptr → Cmd Bst
replace_by_minimum b p minimum = do
  mn ← load_tree minimum
  b' ← if mn.parent == p then pure b else take_out b p minimum mn.right
  take_place b' p minimum

pub bst_delete_node : Bst → Ptr → Cmd Bst
unfolding leftmost replace_by_minimum take_out take_place transplant
bst_delete_node b p = do
  n ← load_tree p
  b' ←
      if n.left == null
      then transplant b p n.right
      else if n.right == null
      then transplant b p n.left
      else do minimum ← leftmost (b.size + 1) n.right; replace_by_minimum b p minimum
  free_tree p
  pure (record b' { size = b'.size - 1 })

min_loop : ℕ → ℕ → (result walker : Ptr) → Cmd Ptr
min_loop zero q result walker = λ _. out_of_fuel
min_loop (suc k) q result walker = if walker == null then pure result else do
  n ← load_tree walker
  if leb q n.content.block_quantity then min_loop k q walker n.left else pure result

pub bst_find_min_node : Bst → ℕ → Cmd Ptr
unfolding min_loop
bst_find_min_node b q = if b.root == null then pure null else min_loop (b.size + 1) q null b.root

max_loop : ℕ → (pref walker : Ptr) → Cmd Ptr
max_loop zero pref walker = λ _. out_of_fuel
max_loop (suc k) pref walker =
    if walker == null then pure pref else do n ← load_tree walker; max_loop k walker n.right

-- `pref_walker` starts uninitialised in C, and is set before it is read.
pub bst_find_max_node : Bst → ℕ → Cmd Ptr
unfolding max_loop
bst_find_max_node b q = if b.root == null then pure null else do
  pref ← max_loop (b.size + 1) b.root b.root
  n ← load_tree pref
  pure (if leb q n.content.block_quantity then pref else null)
