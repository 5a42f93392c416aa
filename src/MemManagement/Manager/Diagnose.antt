-- ===== src/MemManagement/Manager/Diagnose.antt =====
-- `mem_diagnose` of lab02/zad1/src/mem_management.c.
use operating_systems_agh_la.Base.{
  ℕ, zero, suc, ◌+◌, ◌*◌, ◌<◌, ◌≤◌, ◌≡◌, refl, ◌⊎◌, inl, inr, arith, length,
}
use operating_systems_agh_la.MemManagement.Heap.{Ptr, Block, Heap, ok}
use operating_systems_agh_la.MemManagement.Heap.Returns.{Returns, returns}
use operating_systems_agh_la.MemManagement.BlockList.Chain.{Entries}
use operating_systems_agh_la.MemManagement.Bst.Tree.{
  Tree, leaf, node, addr, count, TreeAt, load_tree-ok, ne_null,
}
use operating_systems_agh_la.MemManagement.Bst.Order.{All, All-mono, Ordered}
use operating_systems_agh_la.MemManagement.Manager.{
  Manager, Diagnostic, block_size, leftmost_quantity, rightmost_quantity, mem_diagnose,
}
use operating_systems_agh_la.MemManagement.Manager.Parts.{IsManager}

abbrev pub IsIn : Block → Tree → Type 0
IsIn c leaf = ⊥
IsIn c (node a d l r) = (c ≡ d) ⊎ (IsIn c l ⊎ IsIn c r)

-- The blocks of the leftmost and of the rightmost node.
first_block : Block → Tree → Block
first_block d leaf = d
first_block d (node a e l r) = first_block e l

last_block : Block → Tree → Block
last_block d leaf = d
last_block d (node a e l r) = last_block e r

leftmost_quantity-first :
    (k : ℕ) (h : Heap) (par a : Ptr) (d : Block) (l r : Tree)
    → count (node a d l r) < k
    → TreeAt h par (node a d l r)
    → leftmost_quantity k a h ≡ ok (first_block d l).block_quantity h
unfolding leftmost_quantity first_block
leftmost_quantity-first zero h par a d l r fuel at = absurd (omega arith)
leftmost_quantity-first (suc k) h par a d leaf r fuel at = rw (load_tree-ok h at.0 at.1) refl
leftmost_quantity-first (suc k) h par a d (node b e x y) r fuel at =
    rw (load_tree-ok h at.0 at.1, ne_null at.2.0)
      (leftmost_quantity-first k h a b e x y (omega arith) at.2)

rightmost_quantity-last :
    (k : ℕ) (h : Heap) (par a : Ptr) (d : Block) (l r : Tree)
    → count (node a d l r) < k
    → TreeAt h par (node a d l r)
    → rightmost_quantity k a h ≡ ok (last_block d r).block_quantity h
unfolding rightmost_quantity last_block
rightmost_quantity-last zero h par a d l r fuel at = absurd (omega arith)
rightmost_quantity-last (suc k) h par a d l leaf fuel at = rw (load_tree-ok h at.0 at.1) refl
rightmost_quantity-last (suc k) h par a d l (node b e x y) fuel at =
    rw (load_tree-ok h at.0 at.1, ne_null at.3.0)
      (rightmost_quantity-last k h a b e x y (omega arith) at.3)

-- A block of the tree that no other block is below, or none above.
pub record IsSmallest (t : Tree) (q : ℕ) : Type 0 where
  content : Block
  inside : IsIn content t
  quantity : q ≡ content.block_quantity
  smallest : All (λ c. q ≤ c.block_quantity) t

pub record IsLargest (t : Tree) (q : ℕ) : Type 0 where
  content : Block
  inside : IsIn content t
  quantity : q ≡ content.block_quantity
  largest : All (λ c. c.block_quantity ≤ q) t

first_block-IsSmallest :
    (a : Ptr) (d : Block) (l r : Tree)
    → Ordered (node a d l r)
    → IsSmallest (node a d l r) (first_block d l).block_quantity
unfolding first_block
first_block-IsSmallest a d leaf r o = record {
  content = d;
  inside = inl refl;
  quantity = refl;
  smallest = (omega arith, tt, o.1);
}
first_block-IsSmallest a d (node b e x y) r o =
    let s = first_block-IsSmallest b e x y o.2 in
    record {
      content = s.content;
      inside = inr (inl s.inside);
      quantity = s.quantity;
      smallest = (
        omega (arith, s.smallest.0, o.0.0),
        s.smallest,
        All-mono r (λ c le. omega (arith, s.smallest.0, o.0.0)) o.1,
      );
    }

last_block-IsLargest :
    (a : Ptr) (d : Block) (l r : Tree)
    → Ordered (node a d l r)
    → IsLargest (node a d l r) (last_block d r).block_quantity
unfolding last_block
last_block-IsLargest a d l leaf o = record {
  content = d;
  inside = inl refl;
  quantity = refl;
  largest = (omega arith, All-mono l (λ c lt. omega arith) o.0, tt);
}
last_block-IsLargest a d l (node b e x y) o =
    let s = last_block-IsLargest b e x y o.3 in
    record {
      content = s.content;
      inside = inr (inr s.inside);
      quantity = s.quantity;
      largest = (
        omega (arith, s.largest.0, o.1.0),
        All-mono l (λ c lt. omega (arith, s.largest.0, o.1.0)) o.0,
        s.largest,
      );
    }

-- The sizes of the smallest and of the largest empty block, both 0 if there is none.
abbrev pub Sizes : Tree → (low high : ℕ) → Type 0
Sizes leaf low high = (low ≡ 0) × (high ≡ 0)
Sizes (node a d l r) low high =
    (p : ℕ) × (q : ℕ) × IsSmallest (node a d l r) p
    × IsLargest (node a d l r) q
    × (low ≡ p * block_size)
    × (high ≡ q * block_size)

-- The numbers of empty and of reserved blocks, and the sizes of the least and the largest of the
-- empty ones.
pub record Diagnosed (t : Tree) (xs : Entries) (r : Diagnostic) : Type 0 where
  pub empty : r.empty_elements ≡ count t
  pub reserved : r.reserved_elements ≡ length xs
  pub sizes : Sizes t r.min_empty_size r.max_empty_size

-- On a well-formed manager whose empty blocks are in search order, `mem_diagnose` ends, changes
-- nothing, and returns what `Diagnosed` says.
pub mem_diagnose-Diagnosed :
    (h : Heap) (par : Ptr) (m : Manager) (t : Tree) (xs : Entries)
    → IsManager h par m t xs
    → Ordered t
    → Returns (λ r g. (g ≡ h) × Diagnosed t xs r) (mem_diagnose m h)
unfolding mem_diagnose
mem_diagnose-Diagnosed h par m t xs is o =
    rw is.empty.root (at_root t is.empty.nodes is.empty.size o)
  where
    at_root :
        (u : Tree)
        → TreeAt h par u
        → m.empty_blocks.size ≡ count u
        → Ordered u
        → Returns
            (λ r g. (g ≡ h) × Diagnosed u xs r)
            (mem_diagnose
              (record m { empty_blocks = record { root = addr u; size = m.empty_blocks.size } })
              h)
    at_root leaf at e o' =
        returns (refl, record { empty = e; reserved = is.reserved.size; sizes = (refl, refl) })
    at_root (node a d l r) at e o' =
        rw
          (
            ne_null at.0,
            leftmost_quantity-first (m.empty_blocks.size + 1) h par a d l r (omega arith) at,
            rightmost_quantity-last (m.empty_blocks.size + 1) h par a d l r (omega arith) at,
          )
          (returns (
            refl,
            record {
              empty = e;
              reserved = is.reserved.size;
              sizes = (
                (first_block d l).block_quantity,
                (last_block d r).block_quantity,
                first_block-IsSmallest a d l r o',
                last_block-IsLargest a d l r o',
                refl,
                refl,
              );
            },
          ))
