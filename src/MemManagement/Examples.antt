-- ===== src/MemManagement/Examples.antt =====
-- The memory manager at work, and its theorems at a concrete heap.
mod Deletion
mod Requests
use operating_systems_agh_la.Base.{
  ℕ, ◌*◌, ◌≤◌, ◌<◌, ◌≡◌, refl, ◌≢◌, true, false, Option, none, some, [], ◌∷◌, arith,
}
use operating_systems_agh_la.Base.Int.{negsuc}
use operating_systems_agh_la.MemManagement.Heap.{
  Ptr, null, block, list_node, bst_node, Heap, update, put_list, Malloc, IsMalloc, ok, fault,
}
use operating_systems_agh_la.MemManagement.Heap.Returns.{Returns}
use operating_systems_agh_la.MemManagement.BlockList.{
  BlockList, list_init, list_add_node, list_delete_node, list_finish,
}
use operating_systems_agh_la.MemManagement.BlockList.Chain.{Entries, IsList, SameOutside}
use operating_systems_agh_la.MemManagement.BlockList.Add.{
  IsSortedList, list_add_node-Sorted, place, list_add_node-place,
}
use operating_systems_agh_la.MemManagement.BlockList.Remove.{cut, list_delete_node-cut}
use operating_systems_agh_la.MemManagement.BlockList.Finish.{list_finish-Finished, list_init-empty}
use operating_systems_agh_la.MemManagement.Bst.{
  Bst, bst_add_node, bst_find_min_node, bst_find_max_node, bst_finish,
}
use operating_systems_agh_la.MemManagement.Bst.Tree.{Tree, leaf, node, has, IsTree}
use operating_systems_agh_la.MemManagement.Bst.Order.{Ordered, IsOrderedTree, bst_add_node-Ordered}
use operating_systems_agh_la.MemManagement.Bst.Insert.{insert}
use operating_systems_agh_la.MemManagement.Bst.Add.{Added, bst_add_node-insert}
use operating_systems_agh_la.MemManagement.Bst.Find.{
  bst_find_min_node-MinFound, MaxFound, bst_find_max_node-MaxFound,
}
use operating_systems_agh_la.MemManagement.Bst.Finish.{Freed, bst_finish-Freed}
use operating_systems_agh_la.MemManagement.Manager.{
  Manager, min_alloc, block_size, blocks_for, mem_init, mem_allocate, mem_deallocate,
  local_mem_defragmentation,
}
use operating_systems_agh_la.MemManagement.Manager.Parts.{IsManager, IsTree-trees}
use operating_systems_agh_la.MemManagement.Manager.Size.{blocks_for-least, mem_allocate-IsRefused}
use operating_systems_agh_la.MemManagement.Manager.Init.{mem_init-IsManager}
use operating_systems_agh_la.MemManagement.Manager.Deallocate.{
  block_at, Deallocated, mem_deallocate-Deallocated,
}
use operating_systems_agh_la.MemManagement.Manager.Defragment.{
  IsGap, local_mem_defragmentation-lost,
}

abbrev taken {ℓ} : {A : Type ℓ} → Option A → Ptr → Ptr → Ptr
taken none p q = p
taken (some _) p q = q

-- A `malloc` with room for one list node and two tree nodes, whose memory is zeroed.
abbrev small_malloc : Malloc
small_malloc = record {
  list_at = λ h. taken (h.lists 10) 10 null;
  stale_list = λ h. list_node (block 0 0) null;
  tree_at = λ h. taken (h.trees 10) 10 (taken (h.trees 11) 11 null);
  stale_tree = λ h. bst_node (block 0 0) null null null;
}

small_malloc-IsMalloc : IsMalloc small_malloc
small_malloc-IsMalloc = record {
  fresh_list = λ h ne. ground arith;
  fresh_tree = λ h ne. ground arith;
}

-- A buffer of 16 units at 100. The blocks at 108 (2 units) and at 140 (1 unit) are reserved.
abbrev entries : Entries
entries = (2, block 108 2) ∷ (3, block 140 1) ∷ []

abbrev tree : Tree
tree = node 1 (block 100 1) leaf (node 2 (block 124 2) leaf leaf)

abbrev heap : Heap
heap = record {
  lists =
      update
        (update (update (λ _. none) 1 (some (list_node (block 0 0) 2))) 2
          (some (list_node (block 108 2) 3)))
        3 (some (list_node (block 140 1) null));
  trees =
      update (update (λ _. none) 1 (some (bst_node (block 100 1) null 2 null))) 2
        (some (bst_node (block 124 2) null null 1));
}

abbrev reserved : BlockList
reserved = record { head = 1; size = 2 }

abbrev empty : Bst
empty = record { root = 1; size = 2 }

abbrev manager : Manager
manager = record {
  buffer_address = 100;
  block_quantity = 16;
  empty_blocks = empty;
  reserved_blocks = reserved;
}

reserved-IsList : IsList heap reserved entries
reserved-IsList = record {
  chain = (ground arith, refl, refl, (ground arith, refl, refl, (ground arith, refl, refl, tt)));
  size = refl;
}

sides : (b : Ptr) → has b leaf ≡ true → has b (node 2 (block 124 2) leaf leaf) ≡ false
sides b i = ground arith

empty-IsTree : IsTree heap null empty tree
empty-IsTree = record {
  root = refl;
  nodes = (ground arith, refl, tt, (ground arith, refl, tt, tt));
  distinct = (refl, refl, sides, tt, (refl, refl, λ b i. refl, tt, tt));
  size = refl;
}

tree-Ordered : Ordered tree
tree-Ordered = omega arith

manager-IsManager : IsManager heap null manager tree entries
manager-IsManager = record { empty = empty-IsTree; reserved = reserved-IsList }

blocks_for-least_example :
    (13 ≤ blocks_for 13 * block_size)
    × ((n : ℕ) → 13 ≤ n * block_size → blocks_for 13 ≤ n)
    × (0 < blocks_for 13)
    × (blocks_for 13 ≤ 16)
blocks_for-least_example = blocks_for-least 13 16 (omega arith) (omega arith)

bst_add_node-insert_example :
    Returns
      (Added small_malloc (block 150 1) heap null tree)
      (bst_add_node small_malloc empty (block 150 1) heap)
bst_add_node-insert_example =
    bst_add_node-insert small_malloc small_malloc-IsMalloc (block 150 1) heap null tree empty-IsTree
      (omega arith)

bst_find_max_node-MaxFound_example :
    Returns (λ p g. (g ≡ heap) × MaxFound heap 2 tree p) (bst_find_max_node empty 2 heap)
bst_find_max_node-MaxFound_example =
    bst_find_max_node-MaxFound heap null tree 2 empty-IsTree tree-Ordered

list_finish-Finished_example : list_finish reserved heap ≡ fault
list_finish-Finished_example = list_finish-Finished heap entries reserved-IsList

list_add_node-place_example :
    Returns
      (λ (code, li) g.
        (code ≡ 0)
        × IsList g li ((2, block 108 2) ∷ (10, block 130 1) ∷ (3, block 140 1) ∷ [])
        × SameOutside ((10, block 130 1) ∷ (1, block null 0) ∷ entries) heap g)
      (list_add_node small_malloc reserved (block 130 1) heap)
unfolding place
list_add_node-place_example =
    list_add_node-place small_malloc small_malloc-IsMalloc heap (block 130 1) reserved-IsList
      (omega arith)

list_delete_node-cut_example :
    Returns
      (λ li g.
        IsList g li ((3, block 140 1) ∷ [])
        × (g.lists 2 ≡ none)
        × SameOutside ((1, block null 0) ∷ entries) heap g)
      (list_delete_node reserved 2 heap)
unfolding cut
list_delete_node-cut_example = list_delete_node-cut heap 2 reserved-IsList refl

abbrev no_nodes : Heap
no_nodes = record { lists = λ _. none; trees = λ _. none }

abbrev idle : Manager
idle = record manager {
  empty_blocks = record { root = null; size = 0 };
  reserved_blocks = record { head = null; size = 0 };
}

list_room : (g : Heap) → g.lists ≡ no_nodes.lists → small_malloc.list_at g ≢ null
list_room g e = rw e (omega arith)

-- the heap with the first reserved block alone, and with none
abbrev one_block : Heap
one_block = put_list heap 2 (some (list_node (block 108 2) null))

abbrev one_manager : Manager
one_manager = record manager { reserved_blocks = record { head = 1; size = 1 } }

one_manager-IsManager : IsManager one_block null one_manager tree ((2, block 108 2) ∷ [])
one_manager-IsManager = record {
  empty = IsTree-trees heap one_block null empty-IsTree refl;
  reserved = record {
    chain = (ground arith, refl, refl, (ground arith, refl, refl, tt));
    size = refl;
  };
}

abbrev no_block : Heap
no_block = put_list heap 1 (some (list_node (block 0 0) null))

abbrev free_manager : Manager
free_manager = record manager { reserved_blocks = record { head = 1; size = 0 } }

free_manager-IsManager : IsManager no_block null free_manager tree []
free_manager-IsManager = record {
  empty = IsTree-trees heap no_block null empty-IsTree refl;
  reserved = record { chain = (ground arith, refl, refl, tt); size = refl };
}

memory : (g : Heap) → Freed tree heap g → small_malloc.tree_at g ≢ null
memory g f = ground (arith, f.same.trees 10 refl)

memory_one : (g : Heap) → Freed tree one_block g → small_malloc.tree_at g ≢ null
memory_one g f = ground (arith, f.same.trees 10 refl)

memory_after :
    (g g' : Heap)
    → Freed tree one_block g
    → ((a : Ptr) → a ≢ small_malloc.tree_at g → g'.trees a ≡ g.trees a)
    → small_malloc.tree_at g' ≢ null
memory_after g g' f same = ground (arith, f.same.trees 10 refl, f.same.trees 11 refl, same 11)

local_mem_defragmentation-lost_example :
    Returns
      (λ m g. IsGap g m.empty_blocks 100 108 × IsList g m.reserved_blocks entries)
      (local_mem_defragmentation small_malloc manager heap)
local_mem_defragmentation-lost_example =
    local_mem_defragmentation-lost small_malloc small_malloc-IsMalloc heap null manager tree
      (2, block 108 2) (3, block 140 1) [] memory manager-IsManager (omega arith) (omega arith)
