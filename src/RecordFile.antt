-- ===== src/RecordFile.antt =====
-- lab03/zad1/prog.c: a file of records behind a header with the size of a record and their number,
-- and its sort in place. The records are an array: record `i` is what the file holds in
-- `struct_size` bytes from `i * struct_size + OFFSET`, its key first.
pub mod Sort
pub mod Bytes
mod Examples
use operating_systems_agh_la.Base.{ℕ, zero, suc, ◌≡◌, Bool, List, if◌then◌else◌}
use operating_systems_agh_la.Base.Int.{ℤ, greater}
use operating_systems_agh_la.Base.Maps.{update}

pub record Structure : Type 0 where
  pub key : ℤ
  pub content : List ℕ

pub record File : Type 0 where
  pub struct_size : ℕ
  pub count : ℕ
  pub records : ℕ → Structure

-- The body of the inner loop: both records are read, and written the other way round when their
-- keys are in the wrong order.
unfoldable pub exchange : ℕ → ℕ → (ℕ → Structure) → ℕ → Structure
exchange i j a = if greater (a i).key (a j).key then update (update a j (a i)) i (a j) else a

-- The inner loop from `j` on, with the rounds left.
unfoldable pub inner : ℕ → ℕ → ℕ → (ℕ → Structure) → ℕ → Structure
inner zero i j a = a
inner (suc n) i j a = inner n i (suc j) (exchange i j a)

-- The outer loop from `i` on, with the rounds left.
unfoldable pub outer : ℕ → ℕ → (ℕ → Structure) → ℕ → Structure
outer zero i a = a
outer (suc n) i a = outer n (suc i) (inner (suc n) i i a)

unfoldable pub sort : File → File
sort f = record f { records = outer f.count 0 f.records }
