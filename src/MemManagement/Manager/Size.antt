-- ===== src/MemManagement/Manager/Size.antt =====
-- The sizes that `mem_allocate` of lab02/zad1/src/mem_management.c computes and refuses.
use operating_systems_agh_la.Base.{ℕ, ◌*◌, ◌<◌, ◌≤◌, ◌≡◌, refl, ◌⊎◌, true, ◌||◌, arith, ◌==◌, ltb}
use operating_systems_agh_la.Base.Int.{ℤ, pos, negsuc}
use operating_systems_agh_la.MemManagement.Heap.{Heap, null, Malloc, ok}
use operating_systems_agh_la.MemManagement.Manager.{
  Manager, Strategy, block_size, blocks_for, mem_allocate,
}

-- `mem_allocate` asks for the least number of blocks that hold `size` bytes: they hold it, no fewer
-- blocks do, and at a positive size that fits the buffer there are between one and all of the
-- buffer's blocks.
pub blocks_for-least :
    (size quantity : ℕ)
    → 0 < size
    → size ≤ quantity * block_size
    → (size ≤ blocks_for size * block_size)
      × ((n : ℕ) → size ≤ n * block_size → blocks_for size ≤ n)
      × (0 < blocks_for size)
      × (blocks_for size ≤ quantity)
unfolding blocks_for
blocks_for-least size quantity some_bytes fits =
    (ground arith, λ n le. ground arith, ground arith, ground arith)

-- What `mem_allocate` refuses at once: sizes up to zero, and sizes beyond the whole buffer.
abbrev pub IsRefused : Manager → ℤ → Type 0
IsRefused m (negsuc n) = Unit
IsRefused m (pos size) = (size ≡ 0) ⊎ (m.block_quantity * block_size < size)

-- A refused size gives NULL and changes nothing, with both strategies.
pub mem_allocate-IsRefused :
    (st : Strategy) (mal : Malloc) (m : Manager) (size : ℤ) (h : Heap)
    → IsRefused m size
    → mem_allocate st mal m size h ≡ ok (null, m) h
unfolding mem_allocate
mem_allocate-IsRefused st mal m (negsuc n) h refused = refl
mem_allocate-IsRefused st mal m (pos size) h refused = rw (test refused)
  where
    test :
        (size ≡ 0) ⊎ (m.block_quantity * block_size < size)
        → ((size == 0) || ltb (m.block_quantity * block_size) size) ≡ true
    test c = ground arith
