-- ===== src/MemManagement/BlockList.antt =====
-- lab02/zad1/src/list.c: the singly linked list of reserved blocks, ordered by address, behind a
-- head node that holds no block. A loop runs on `size + 1` rounds.
pub mod Chain
pub mod Add
pub mod Remove
pub mod Finish
use operating_systems_agh_la.Base.{ℕ, zero, suc, ◌+◌, ◌-◌, ◌==◌, ltb, if◌then◌else◌}
use operating_systems_agh_la.MemManagement.Heap.{
  Ptr, null, Block, block, Cmd, out_of_fuel, pure, ◌>>=◌, ◌>>◌, load_list, set_next,
  set_list_content, free_list, Malloc, malloc_list,
}

pub record BlockList : Type 0 where
  pub head : Ptr
  pub size : ℕ

-- The first component is what the function returns: 0, or 1 when there is no memory.
pub list_init : Malloc → BlockList → Cmd (ℕ × BlockList)
list_init m li = do
  p ← malloc_list m
  if p == null then pure (1, record li { head = null }) else do
    set_list_content p (block null 0)
    set_next p null
    pure (0, record { head = p; size = 0 })

-- The inner loop of `list_finish`. It frees a node and then reads its `next`.
finish_loop : ℕ → Ptr → Cmd (Unit {0})
finish_loop zero p = λ _. out_of_fuel
finish_loop (suc k) p = do
  n ← load_list p
  if n.next == null then pure tt else do free_list p; n' ← load_list p; finish_loop k n'.next

pub list_finish : BlockList → Cmd BlockList
unfolding finish_loop
list_finish li = do
  n ← load_list li.head
  if n.next == null then pure tt else finish_loop (li.size + 1) n.next
  free_list li.head
  pure (record li { size = 0 })

-- The walk of `list_add_node`: past the nodes whose address is below that of the new block.
find_place : ℕ → Block → (pref walker : Ptr) → Cmd (Ptr × Ptr)
find_place zero d pref walker = λ _. out_of_fuel
find_place (suc k) d pref walker = if walker == null then pure (pref, walker) else do
  n ← load_list walker
  if ltb n.content.address d.address then find_place k d walker n.next else pure (pref, walker)

pub list_add_node : Malloc → BlockList → Block → Cmd (ℕ × BlockList)
unfolding find_place
list_add_node m li d = do
  p ← malloc_list m
  if p == null then pure (1, li) else do
    set_list_content p d
    n ← load_list li.head
    (pref, walker) ← find_place (li.size + 1) d li.head n.next
    set_next pref p
    set_next p walker
    pure (0, record li { size = li.size + 1 })

-- The walk of `list_delete_node`, up to the given node.
find_node : ℕ → Ptr → (pref walker : Ptr) → Cmd Ptr
find_node zero p pref walker = λ _. out_of_fuel
find_node (suc k) p pref walker =
    if walker == p then pure pref else do n ← load_list walker; find_node k p walker n.next

pub list_delete_node : BlockList → Ptr → Cmd BlockList
unfolding find_node
list_delete_node li p = do
  n ← load_list li.head
  pref ← find_node (li.size + 1) p li.head n.next
  target ← load_list p
  set_next pref target.next
  free_list p
  pure (record li { size = li.size - 1 })
