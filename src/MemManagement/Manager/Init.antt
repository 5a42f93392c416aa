-- ===== src/MemManagement/Manager/Init.antt =====
-- `mem_init` of lab02/zad1/src/mem_management.c.
use operating_systems_agh_la.Base.{
  ℕ, ◌*◌, ◌^◌, ◌<◌, ◌≡◌, refl, ◌≢◌, true, false, [], arith, ◌==◌, ltb,
}
use operating_systems_agh_la.Base.Int.{pos}
use operating_systems_agh_la.MemManagement.Heap.{Ptr, null, block, Heap, Malloc, IsMalloc}
use operating_systems_agh_la.MemManagement.Heap.Returns
use operating_systems_agh_la.MemManagement.Heap.Returns.{Returns, returns}
use operating_systems_agh_la.MemManagement.BlockList.{BlockList, list_init}
use operating_systems_agh_la.MemManagement.BlockList.Chain.{IsList}
use operating_systems_agh_la.MemManagement.BlockList.Finish.{list_init-empty}
use operating_systems_agh_la.MemManagement.Bst.{bst_init}
use operating_systems_agh_la.MemManagement.Bst.Tree.{leaf, node}
use operating_systems_agh_la.MemManagement.Bst.Insert.{insert}
use operating_systems_agh_la.MemManagement.Bst.Add.{bst_add_node-insert}
use operating_systems_agh_la.MemManagement.Manager.{Manager, block_size, init_buffer, mem_init}
use operating_systems_agh_la.MemManagement.Manager.Parts.{IsManager, IsTree-trees}

not_null : {p : ℕ} → p ≢ null → (p == null) ≡ false
not_null ne = ground arith

list_init-ok :
    (mal : Malloc) (h : Heap) (li : BlockList)
    → mal.list_at h ≢ null
    → Returns
        (λ (code, li') g. (code ≡ 0) × IsList g li' [] × (g.trees ≡ h.trees))
        (list_init mal li h)
list_init-ok mal h li memory =
    Returns.mono
      (let got : (mal.list_at h == null) ≡ false = not_null memory in
        rw got at (list_init-empty mal h li))
      (λ r g (c, hd, is, same). (c, is, same))

-- With memory for the buffer, whose bytes an `int` counts, for a tree node in the heap, and for a list node while the list nodes are those of
-- the heap, `mem_init` returns 0; the manager then covers the buffer with one empty block of all
-- its units, the root of the tree, and has no reserved block. The root's `parent` is what `malloc`
-- left in it.
pub mem_init-IsManager :
    (mal : Malloc)
    → IsMalloc mal
    → (h : Heap) (buffer_at : ℕ → Ptr) (quantity : ℕ) (m : Manager) → quantity * block_size < 2 ^ 31
    → buffer_at (quantity * block_size) ≢ null
    → mal.tree_at h ≢ null
    → ((g : Heap) → g.lists ≡ h.lists → mal.list_at g ≢ null)
    → Returns
        (λ (code, m') g.
          (code ≡ 0)
          × (m'.buffer_address ≡ buffer_at (quantity * block_size))
          × (m'.block_quantity ≡ quantity)
          × IsManager g
              (mal.stale_tree h).parent
              m'
              (node (mal.tree_at h) (block (buffer_at (quantity * block_size)) quantity) leaf leaf)
              [])
        (mem_init mal buffer_at (pos quantity) m h)
unfolding mem_init init_buffer bst_init insert
mem_init-IsManager mal law h buffer_at quantity m small some_buffer ne memory =
    rw (is_int, not_null some_buffer)
      (Returns.bind
        (bst_add_node-insert mal law (block (buffer_at (quantity * block_size)) quantity) h null
          leaf record { root = refl; nodes = tt; distinct = tt; size = refl } ne)
        λ (code, e) g added.
          Returns.bind (list_init-ok mal g m.reserved_blocks (memory g added.same.lists))
            λ (code', li) g' (zero', empty, same). rw zero' (
              returns (
                refl,
                refl,
                refl,
                record {
                  empty = IsTree-trees g g' (mal.stale_tree h).parent added.tree same;
                  reserved = empty;
                },
              )))
  where
    is_int : ltb (quantity * block_size) (2 ^ 31) ≡ true
    is_int = ground arith
