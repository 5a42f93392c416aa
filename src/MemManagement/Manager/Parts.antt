-- ===== src/MemManagement/Manager/Parts.antt =====
-- The two containers of the manager side by side in one heap.
use operating_systems_agh_la.Base.{◌≡◌, ap, ◌∷◌}
use operating_systems_agh_la.MemManagement.Heap.{Ptr, null, block, Heap}
use operating_systems_agh_la.MemManagement.BlockList.{BlockList}
use operating_systems_agh_la.MemManagement.BlockList.Chain
use operating_systems_agh_la.MemManagement.BlockList.Chain.{Entries, IsList}
use operating_systems_agh_la.MemManagement.Bst.{Bst}
use operating_systems_agh_la.MemManagement.Bst.Tree
use operating_systems_agh_la.MemManagement.Bst.Tree.{Tree, IsTree}
use operating_systems_agh_la.MemManagement.Manager.{Manager}

pub IsList-lists :
    (h g : Heap) {li : BlockList} {xs : Entries}
    → IsList h li xs
    → g.lists ≡ h.lists
    → IsList g li xs
IsList-lists h g {li} {xs} is e = record {
  chain = Chain.frame h g ((li.head, block null 0) ∷ xs) is.chain (λ a i. ap (λ f. f a) e);
  size = is.size;
}

pub IsTree-trees :
    (h g : Heap) (par : Ptr) {b : Bst} {t : Tree}
    → IsTree h par b t
    → g.trees ≡ h.trees
    → IsTree g par b t
IsTree-trees h g par {b} {t} is e = record {
  root = is.root;
  nodes = Tree.frame h g par t is.nodes (λ a i. ap (λ f. f a) e);
  distinct = is.distinct;
  size = is.size;
}

-- The manager in the heap: `xs` are the nodes of the reserved blocks, `t` is the tree of the empty
-- blocks, whose root has the parent `par`.
pub record IsManager (h : Heap) (par : Ptr) (m : Manager) (t : Tree) (xs : Entries) : Type 0 where
  pub empty : IsTree h par m.empty_blocks t
  pub reserved : IsList h m.reserved_blocks xs
