-- ===== src/MemManagement/Examples/Deletion.antt =====
-- Deletion from the trees of lab02/zad1/src/bst.c at concrete heaps.
use operating_systems_agh_la.Base.{◌≡◌, refl, some, none, arith}
use operating_systems_agh_la.MemManagement.Heap.{null, block, bst_node, Heap, update}
use operating_systems_agh_la.MemManagement.Heap.Returns.{Returns}
use operating_systems_agh_la.MemManagement.Bst.{Bst, bst_delete_node}
use operating_systems_agh_la.MemManagement.Bst.Tree.{Tree, leaf, node, IsTree}
use operating_systems_agh_la.MemManagement.Bst.Order.{Ordered}
use operating_systems_agh_la.MemManagement.Bst.Count.{Distinct-Once, hits}
use operating_systems_agh_la.MemManagement.Bst.Remove.{remove, Deleted, bst_delete_node-remove}

-- The root has two children, and the least node on its right is below the right child.
abbrev low : Tree
low = node 2 (block 200 2) leaf leaf

abbrev next : Tree
next = node 4 (block 400 6) leaf (node 5 (block 500 7) leaf leaf)

abbrev tree : Tree
tree = node 1 (block 100 5) low (node 3 (block 300 9) next leaf)

abbrev heap : Heap
heap = record {
  lists = λ _. none;
  trees =
      update
        (update
          (update
            (update (update (λ _. none) 1 (some (bst_node (block 100 5) 2 3 null))) 2
              (some (bst_node (block 200 2) null null 1)))
            3 (some (bst_node (block 300 9) 4 null 1)))
          4 (some (bst_node (block 400 6) null 5 3)))
        5 (some (bst_node (block 500 7) null null 4));
}

abbrev handle : Bst
handle = record { root = 1; size = 5 }

handle-IsTree : IsTree heap null handle tree
unfolding hits
handle-IsTree = record {
  root = refl;
  nodes = (
    ground arith,
    refl,
    (ground arith, refl, tt, tt),
    (ground arith, refl, (ground arith, refl, tt, (ground arith, refl, tt, tt)), tt),
  );
  distinct = Distinct-Once tree (λ q. ground arith);
  size = refl;
}

tree-Ordered : Ordered tree
tree-Ordered = omega arith

bst_delete_node-remove_example : Returns (Deleted heap null 1 tree) (bst_delete_node handle 1 heap)
bst_delete_node-remove_example =
    bst_delete_node-remove heap null tree 1 handle-IsTree refl (λ _. refl)

-- The node 4 takes the place of the root, and its right child goes up.
remove-root :
    remove 1 tree
    ≡ node 4 (block 400 6) low (node 3 (block 300 9) (node 5 (block 500 7) leaf leaf) leaf)
unfolding remove
remove-root = refl
