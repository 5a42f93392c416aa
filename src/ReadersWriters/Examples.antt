-- ===== src/ReadersWriters/Examples.antt =====
-- Readers and writers at work: one writer modifies a cell, then one reader counts.
use operating_systems_agh_la.Base.{ℕ, ◌<◌, ◌≡◌, refl, ◌≢◌, arith}
use operating_systems_agh_la.Base.Int.{ℤ, pos, negsuc}
use operating_systems_agh_la.ReadersWriters.{
  State, reading, writing, wait_reader, wait_writer, reader_act, Draw, writer_act, Reach, start,
  read, write,
}
use operating_systems_agh_la.ReadersWriters.Exclusion.{writing-exclusive, reading-matches}
use operating_systems_agh_la.ReadersWriters.Invariant.{matches}

abbrev low : ℕ → ℤ
low i = negsuc 4

abbrev high : ℕ → ℤ
high i = pos 5

abbrev draw : Draw
draw = record { iterations = 1; index = 0; value = pos 3 }

-- the writer has the array
writer_in : (s : State) × Reach 2 2 low high s × (s.writers 0 ≡ writing 1)
unfolding writer_act wait_writer
writer_in = (_, write draw 0 (omega arith) (start (λ _. pos 9)) refl, refl)

-- the writer has modified a cell and left, and the reader has counted it
reader_in : (s : State) × Reach 2 2 low high s × (s.readers 1 ≡ reading 2 1)
unfolding writer_in writer_act wait_writer reader_act wait_reader
reader_in = (
  _,
  read 1 (omega arith)
      (read 1 (omega arith)
        (read 1 (omega arith)
          (read 1 (omega arith)
            (read 1 (omega arith)
              (read 1 (omega arith)
                (write draw 0 (omega arith) (write draw 0 (omega arith) writer_in.1 refl) refl)
                refl)
              refl)
            refl)
          refl)
        refl)
      refl,
  refl,
)

writing-exclusive_example :
    ((j l : ℕ) → j < 2 → writer_in.0.writers j ≡ writing l → j ≡ 0)
    × ((j l result : ℕ) → j < 2 → writer_in.0.readers j ≢ reading l result)
writing-exclusive_example = writing-exclusive 2 2 low high writer_in.1 0 1 (omega arith) writer_in.2

reading-matches_example : 1 ≡ matches (negsuc 4) (pos 5) 2 reader_in.0.shared_array
reading-matches_example = reading-matches 2 2 low high reader_in.1 1 2 1 (omega arith) reader_in.2
