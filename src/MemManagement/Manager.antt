-- ===== src/MemManagement/Manager.antt =====
-- lab02/zad1/src/mem_management.c: the global `m` and the functions on it. A function returns its
-- result and the new `m`. Addresses in the buffer are numbers: its bytes are not modelled, nor is
-- the `free` of the buffer, nor what the functions print.
pub mod Size
pub mod Parts
pub mod Init
pub mod Deallocate
pub mod Allocate
pub mod Cover
pub mod Partition
pub mod Requests
pub mod Diagnose
pub mod Defragment
use operating_systems_agh_la.Base.{
  ℕ, zero, suc, not_zero, ◌+◌, ◌-◌, ◌*◌, ◌/◌, ◌%◌, ◌^◌, Bool, true, false, not, Option, none, some,
  ◌||◌, ◌==◌, ltb, leb, if◌then◌else◌,
}
use operating_systems_agh_la.Base.Int.{ℤ, pos, negsuc}
use operating_systems_agh_la.MemManagement.Heap.{
  Ptr, null, Block, block, Cmd, out_of_fuel, fault, pure, ◌>>=◌, ◌>>◌, load_list, load_tree, Malloc,
}
use operating_systems_agh_la.MemManagement.BlockList.{
  BlockList, list_init, list_finish, list_add_node, list_delete_node,
}
use operating_systems_agh_la.MemManagement.Bst.{
  Bst, bst_init, bst_finish, bst_add_node, bst_delete_node, bst_find_min_node, bst_find_max_node,
}

-- BLOCK_SIZE
abbrev pub block_size : ℕ
block_size = 8

-- MIN_ALLOC_STRATEGY, the default, or MAX_ALLOC_STRATEGY
pub data Strategy : Type 0 where
  min_alloc : Strategy
  max_alloc : Strategy

pub record Manager : Type 0 where
  pub buffer_address : ℕ
  pub block_quantity : ℕ
  pub empty_blocks : Bst
  pub reserved_blocks : BlockList

abbrev pub limit : Manager → ℕ
limit m = m.buffer_address + m.block_quantity * block_size

abbrev pub init_with : (buffer quantity : ℕ) → Bst → BlockList → Manager
init_with buffer quantity e li = record {
  buffer_address = buffer;
  block_quantity = quantity;
  empty_blocks = e;
  reserved_blocks = li;
}

-- `mem_init` with what `malloc` has returned for the buffer.
pub init_buffer : Malloc → (buffer quantity : ℕ) → Manager → Cmd (ℕ × Manager)
init_buffer mal buffer quantity m =
    if buffer == null then pure (1, record m { buffer_address = null }) else do
      let (check, e) = bst_init m.empty_blocks
      if not_zero check
          then pure
              (2, record m { buffer_address = buffer; block_quantity = quantity; empty_blocks = e })
          else do
            (_, e') ← bst_add_node mal e (block buffer quantity)
            (code, li) ← list_init mal m.reserved_blocks
            let m' = init_with buffer quantity e' li
            if not_zero code then pure (3, m') else pure (0, m')

-- `buffer_at` is the address that `malloc` returns for a number of bytes. A product that is no `int`
-- is a fault; a negative one is as a `size_t` more than `malloc` can give.
pub mem_init : Malloc → (buffer_at : ℕ → Ptr) → ℤ → Manager → Cmd (ℕ × Manager)
unfolding init_buffer
mem_init mal buffer_at (pos quantity) m =
    if ltb (quantity * block_size) (2 ^ 31)
    then init_buffer mal (buffer_at (quantity * block_size)) quantity m
    else λ h. fault
mem_init mal buffer_at (negsuc n) m =
    if leb (suc n * block_size) (2 ^ 31) then pure (1, record m { buffer_address = null }) else λ h.
    fault

pub mem_finish : Manager → Cmd Manager
mem_finish m = do
  e ← bst_finish m.empty_blocks
  li ← list_finish m.reserved_blocks
  pure (record m { empty_blocks = e; reserved_blocks = li })

-- `size / BLOCK_SIZE`, and one more where the exact quotient is larger
pub blocks_for : ℕ → ℕ
blocks_for size =
    let quotient = size / block_size in
    if ltb (quotient * block_size) size then quotient + 1 else quotient

pub find_empty : Strategy → Bst → ℕ → Cmd Ptr
find_empty min_alloc b q = bst_find_min_node b q
find_empty max_alloc b q = bst_find_max_node b q

pub local_mem_allocate : Strategy → Malloc → Manager → ℕ → Cmd (ℕ × Manager)
unfolding find_empty
local_mem_allocate st mal m quantity = do
  p ← find_empty st m.empty_blocks quantity
  if p == null then pure (null, m) else do
    n ← load_tree p
    let address = n.content.address
    (_, li) ← list_add_node mal m.reserved_blocks (block address quantity)
    let rest = n.content.block_quantity - quantity
    e ← bst_delete_node m.empty_blocks p
    if ltb 0 rest
        then (do
          (_, e') ← bst_add_node mal e (block (address + quantity * block_size) rest)
          pure (address, record m { empty_blocks = e'; reserved_blocks = li }))
        else pure (address, record m { empty_blocks = e; reserved_blocks = li })

-- The first loop of `local_mem_defragmentation`: past the reserved blocks at the start of the
-- buffer. `none` is its `return`; else it leaves `begin`, `end` and the walker.
skip_first : ℕ → (begin end : ℕ) → (walker : Ptr) → Cmd (Option (ℕ × ℕ × Ptr))
skip_first zero begin end walker = λ _. out_of_fuel
skip_first (suc k) begin end walker =
    if begin == end
    then (do
      n ← load_list walker
      if n.next == null then pure none else do
        n' ← load_list n.next
        skip_first k (end + n.content.block_quantity * block_size) n'.content.address n.next)
    else pure (some (begin, end, walker))

-- The same inside the second loop, where the end of the list is a `break` that keeps `end`.
skip_more : ℕ → (begin end : ℕ) → (walker : Ptr) → Cmd (ℕ × ℕ × Ptr)
skip_more zero begin end walker = λ _. out_of_fuel
skip_more (suc k) begin end walker =
    if begin == end
    then (do
      n ← load_list walker
      if n.next == null then pure (end + n.content.block_quantity * block_size, end, null) else do
        n' ← load_list n.next
        skip_more k (end + n.content.block_quantity * block_size) n'.content.address n.next)
    else pure (begin, end, walker)

-- The second loop. `none` is the return after its error message. `begin` moves by the quantity
-- itself, not by its bytes, and `end` is left where it was, as in the source.
refill : ℕ → Malloc → Bst → (begin end : ℕ) → (walker : Ptr) → Cmd (Bst × Option ℕ)
refill zero mal e begin end walker = λ _. out_of_fuel
refill (suc k) mal e begin end walker =
    if walker == null
    then pure (e, some begin)
    else if ltb begin end
    then (do
      (_, e') ← bst_add_node mal e (block begin ((end - begin) / block_size))
      n ← load_list walker
      (begin', end', walker') ← skip_more (suc k) (end + n.content.block_quantity) end n.next
      refill k mal e' begin' end' walker')
    else pure (e, none)

pub local_mem_defragmentation : Malloc → Manager → Cmd Manager
unfolding skip_first skip_more refill
local_mem_defragmentation mal m = do
  head ← load_list m.reserved_blocks.head
  first ← load_list head.next
  let rounds = m.reserved_blocks.size + 1
  found ← skip_first rounds m.buffer_address first.content.address head.next
  elim found [
    | none ↦ pure m
    | some (begin, end, walker) ↦ (do
      e ← bst_finish m.empty_blocks
      let (_, e0) = bst_init e
      (e1, left) ← refill rounds mal e0 begin end walker
      elim left [
        | none ↦ pure (record m { empty_blocks = e1 })
        | some begin' ↦
            if ltb begin' (limit m)
            then (do
              (_, e2) ← bst_add_node mal e1 (block begin' ((limit m - begin') / block_size))
              pure (record m { empty_blocks = e2 }))
            else pure (record m { empty_blocks = e1 })
      ])
  ]

-- `size` is an `int`; a negative one is refused.
pub mem_allocate : Strategy → Malloc → Manager → ℤ → Cmd (ℕ × Manager)
unfolding local_mem_allocate local_mem_defragmentation blocks_for
mem_allocate st mal m (negsuc n) = pure (null, m)
mem_allocate st mal m (pos size) =
    if (size == 0) || ltb (m.block_quantity * block_size) size then pure (null, m) else do
      (result, m1) ← local_mem_allocate st mal m (blocks_for size)
      if not (result == null) then pure (result, m1) else do
        m2 ← local_mem_defragmentation mal m1
        local_mem_allocate st mal m2 (blocks_for size)

-- The walk of `mem_deallocate` to the node of an address.
find_address : ℕ → ℕ → Ptr → Cmd Ptr
find_address zero address walker = λ _. out_of_fuel
find_address (suc k) address walker = if walker == null then pure walker else do
  n ← load_list walker
  if n.content.address == address then pure walker else find_address k address n.next

pub mem_deallocate : Malloc → Manager → ℕ → Cmd (ℕ × Manager)
unfolding find_address
mem_deallocate mal m address = do
  head ← load_list m.reserved_blocks.head
  walker ← find_address (m.reserved_blocks.size + 1) address head.next
  if walker == null then pure (1, m) else do
    n ← load_list walker
    (_, e) ← bst_add_node mal m.empty_blocks n.content
    li ← list_delete_node m.reserved_blocks walker
    pure (0, record m { empty_blocks = e; reserved_blocks = li })

pub record Diagnostic : Type 0 where
  pub empty_elements : ℕ
  pub reserved_elements : ℕ
  pub min_empty_size : ℕ
  pub max_empty_size : ℕ

-- The two walks of `mem_diagnose`, to the leftmost and to the rightmost node.
pub leftmost_quantity : ℕ → Ptr → Cmd ℕ
leftmost_quantity zero p = λ _. out_of_fuel
leftmost_quantity (suc k) p = do
  n ← load_tree p
  if n.left == null then pure n.content.block_quantity else leftmost_quantity k n.left

pub rightmost_quantity : ℕ → Ptr → Cmd ℕ
rightmost_quantity zero p = λ _. out_of_fuel
rightmost_quantity (suc k) p = do
  n ← load_tree p
  if n.right == null then pure n.content.block_quantity else rightmost_quantity k n.right

pub mem_diagnose : Manager → Cmd Diagnostic
unfolding leftmost_quantity rightmost_quantity
mem_diagnose m =
    if m.empty_blocks.root == null
    then pure record {
      empty_elements = m.empty_blocks.size;
      reserved_elements = m.reserved_blocks.size;
      min_empty_size = 0;
      max_empty_size = 0;
    }
    else do
      low ← leftmost_quantity (m.empty_blocks.size + 1) m.empty_blocks.root
      high ← rightmost_quantity (m.empty_blocks.size + 1) m.empty_blocks.root
      pure record {
        empty_elements = m.empty_blocks.size;
        reserved_elements = m.reserved_blocks.size;
        min_empty_size = low * block_size;
        max_empty_size = high * block_size;
      }
