-- ===== src/MemManagement/Examples/Requests.antt =====
-- `mem_init`, `mem_allocate` and `mem_deallocate` of lab02/zad1/src/mem_management.c on a buffer of
-- six units.
use operating_systems_agh_la.Base.{
  ◌≤◌, ◌*◌, ◌≡◌, refl, sym, ap, ◌∙◌, Option, Bool-cases, ◌==◌, ◌≢◌, inl, inr, true, some, none, [],
  arith, leb, if◌then◌else◌,
}
use operating_systems_agh_la.Base.Int.{pos}
use operating_systems_agh_la.MemManagement.Heap.{Ptr, null, block, BstNode, Malloc, IsMalloc}
use operating_systems_agh_la.MemManagement.Heap.Returns.{Returns}
use operating_systems_agh_la.MemManagement.Manager.{
  Manager, max_alloc, block_size, blocks_for, mem_init, mem_allocate, mem_deallocate, mem_diagnose,
  local_mem_allocate,
}
use operating_systems_agh_la.MemManagement.Manager.Allocate.{Finds, Reuses}
use operating_systems_agh_la.MemManagement.Manager.Cover.{within}
use operating_systems_agh_la.MemManagement.Manager.Deallocate.{block_at}
use operating_systems_agh_la.MemManagement.Manager.Size.{blocks_for-least}
use operating_systems_agh_la.MemManagement.Manager.Partition.{
  WellManaged, Reserved, Allocation, local_mem_allocate-Allocation,
}
use operating_systems_agh_la.MemManagement.Manager.Requests.{
  Deallocation, mem_allocate-Reserved, mem_deallocate-Deallocation, mem_init-WellManaged,
}
use operating_systems_agh_la.MemManagement.Manager.Diagnose.{Diagnosed, mem_diagnose-Diagnosed}
use operating_systems_agh_la.MemManagement.Examples.{
  taken, small_malloc, small_malloc-IsMalloc, heap, tree, entries, manager, manager-IsManager,
  tree-Ordered, no_nodes, idle, list_room,
}

abbrev full : Manager
full = record manager { block_quantity = 6 }

full-WellManaged : WellManaged heap null full
unfolding within
full-WellManaged = record {
  tree = tree;
  entries = entries;
  is = record { empty = manager-IsManager.empty; reserved = manager-IsManager.reserved };
  ordered = tree-Ordered;
  sorted = omega arith;
  covers = λ x. ground arith;
}

-- A `malloc` that gives the memory of a freed tree node again.
abbrev reusing : Malloc
reusing = record small_malloc {
  tree_at = λ h. taken (h.trees 1) 1 (taken (h.trees 2) 2 (taken (h.trees 10) 10 null));
}

reusing-IsMalloc : IsMalloc reusing
reusing-IsMalloc = record { fresh_list = λ h ne. ground arith; fresh_tree = λ h ne. ground arith }

reusing-Reuses : Reuses reusing tree
reusing-Reuses g p i free = elim (Bool-cases (p == 1)) [
  | inl first ↦
      let here : g.trees 1 ≡ none = ap g.trees (sym (same 1 first)) ∙ free in rw here (omega arith)
  | inr other ↦
      let here : g.trees 2 ≡ none = ap g.trees (sym (same 2 (ground arith))) ∙ free in
      not_null here (g.trees 1)
]
  where
    same : (a : Ptr) → (p == a) ≡ true → p ≡ a
    same a e = ground arith

    not_null :
        g.trees 2 ≡ none
        → (o : Option BstNode) → taken o 1 (taken (g.trees 2) 2 (taken (g.trees 10) 10 null)) ≢ null
    not_null here none = omega arith
    not_null here (some n) = rw here (omega arith)

one_unit : blocks_for 5 ≡ 1
one_unit =
    let least = blocks_for-least 5 1 (omega arith) (omega arith) in omega (arith, least.2, least.3)

one_unit_found : Finds max_alloc heap (blocks_for 5) tree null → ⊥
one_unit_found (inl f) = f.0.ne_null refl
one_unit_found (inr f) = omega (arith, f.1.0, one_unit)

local_mem_allocate-Allocation_example :
    Returns
      (Allocation max_alloc heap 1 full full-WellManaged)
      (local_mem_allocate max_alloc reusing full 1 heap)
unfolding full-WellManaged
local_mem_allocate-Allocation_example =
    local_mem_allocate-Allocation max_alloc reusing reusing-IsMalloc heap full 1 full-WellManaged
      (omega arith) (omega arith) reusing-Reuses

mem_allocate-Reserved_example :
    Returns
      (λ (address, m) g.
        (5 ≤ blocks_for 5 * block_size) × Reserved (blocks_for 5) full entries address m g)
      (mem_allocate max_alloc reusing full (pos 5) heap)
unfolding full-WellManaged
mem_allocate-Reserved_example =
    mem_allocate-Reserved max_alloc reusing reusing-IsMalloc heap full 5 full-WellManaged
      (omega arith) (omega arith) (omega arith) one_unit_found (omega arith) reusing-Reuses

mem_deallocate-Deallocation_example :
    Returns
      (Deallocation full heap entries (some (2, block 108 2)))
      (mem_deallocate small_malloc full 108 heap)
unfolding block_at full-WellManaged
mem_deallocate-Deallocation_example =
    mem_deallocate-Deallocation small_malloc small_malloc-IsMalloc heap null full 108
      full-WellManaged (omega arith)

mem_init-WellManaged_example :
    Returns
      (λ (code, m) g.
        (code ≡ 0)
        × (m.buffer_address ≡ 100)
        × (m.block_quantity ≡ 16)
        × (par : Ptr) × (w : WellManaged g par m) × (w.entries ≡ []))
      (mem_init small_malloc (λ size. if leb size 128 then 100 else null) (pos 16) idle no_nodes)
mem_init-WellManaged_example =
    mem_init-WellManaged small_malloc small_malloc-IsMalloc no_nodes
      (λ size. if leb size 128 then 100 else null) 16 idle (omega arith) (omega arith) (omega arith)
      list_room

mem_diagnose-Diagnosed_example :
    Returns (λ r g. (g ≡ heap) × Diagnosed tree entries r) (mem_diagnose manager heap)
mem_diagnose-Diagnosed_example =
    mem_diagnose-Diagnosed heap null manager tree entries manager-IsManager tree-Ordered
