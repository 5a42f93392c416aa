-- ===== src/ReadersWriters.antt =====
-- lab08/zad2: readers and writers of an array in shared memory, any number of each. A step is a
-- `sem_wait`, a `sem_post` or one access to what they share; `none` is a `sem_wait` that blocks.
pub mod Invariant
pub mod Exclusion
mod Examples
use operating_systems_agh_la.Base.{
  ℕ, zero, suc, ◌+◌, ◌-◌, ◌<◌, ◌≡◌, Bool, true, false, ◌&&◌, not, Option, none, some, ◌==◌, ltb,
  if◌then◌else◌,
}
use operating_systems_agh_la.Base.Int.{ℤ, greater}
use operating_systems_agh_la.Base.Maps.{update}

-- TAB_LENGTH
abbrev pub tab_length : ℕ
tab_length = 50

-- Where a reader stands: what it has done last. It has `sem_reader` at `entering`, `counted_in`,
-- `settled`, `departing`, `counted_out` and `released`. `reading i result` are the variables of
-- `task_execute`.
pub data ReaderPc : Type 0 where
  away : ReaderPc
  entering : ReaderPc
  counted_in : ReaderPc
  settled : ReaderPc
  reading : (i result : ℕ) → ReaderPc
  departing : ReaderPc
  counted_out : ReaderPc
  released : ReaderPc

-- `writing n`: `n` modifications are left.
pub data WriterPc : Type 0 where
  resting : WriterPc
  writing : ℕ → WriterPc

pub record State : Type 0 where
  pub sem_reader : ℕ
  pub sem_writer : ℕ
  pub readers_count : ℕ
  pub shared_array : ℕ → ℤ
  pub readers : ℕ → ReaderPc
  pub writers : ℕ → WriterPc

-- the test of a cell in `task_execute`
abbrev pub in_range : (min max value : ℤ) → Bool
in_range min max value = not (greater min value) && not (greater value max)

abbrev pub reader_at : ℕ → ReaderPc → State → State
reader_at i p s = record s { readers = update s.readers i p }

-- `sem_wait` of each semaphore
unfoldable pub wait_reader : State → Option State
wait_reader s =
    if s.sem_reader == 0 then none else some (record s { sem_reader = s.sem_reader - 1 })

unfoldable pub wait_writer : State → Option State
wait_writer s =
    if s.sem_writer == 0 then none else some (record s { sem_writer = s.sem_writer - 1 })

abbrev pub then_at : ℕ → ReaderPc → Option State → Option State
then_at i p none = none
then_at i p (some s) = some (reader_at i p s)

-- The next access of reader `i`, which counts the cells from `min` to `max`.
unfoldable pub reader_act : (min max : ℤ) → ℕ → ReaderPc → State → Option State
unfolding wait_reader wait_writer
reader_act min max i away s = then_at i entering (wait_reader s)
reader_act min max i entering s =
    some (reader_at i counted_in (record s { readers_count = suc s.readers_count }))
reader_act min max i counted_in s =
    then_at i settled (if s.readers_count == 1 then wait_writer s else some s)
reader_act min max i settled s =
    some (reader_at i (reading 0 0) (record s { sem_reader = suc s.sem_reader }))
reader_act min max i (reading k result) s =
    if ltb k tab_length
    then some (
        reader_at i
          (reading (suc k) (if in_range min max (s.shared_array k) then suc result else result)) s)
    else then_at i departing (wait_reader s)
reader_act min max i departing s =
    some (reader_at i counted_out (record s { readers_count = s.readers_count - 1 }))
reader_act min max i counted_out s = some (
    reader_at i released
      (if s.readers_count == 0 then record s { sem_writer = suc s.sem_writer } else s))
reader_act min max i released s =
    some (reader_at i away (record s { sem_reader = suc s.sem_reader }))

-- The numbers that `rand` gives a writer for its next access.
pub record Draw : Type 0 where
  pub iterations : ℕ
  pub index : ℕ
  pub value : ℤ

-- The next access of writer `i`.
unfoldable pub writer_act : Draw → ℕ → WriterPc → State → Option State
unfolding wait_writer
writer_act d i resting s = elim (wait_writer s) [
  | none ↦ none
  | some t ↦ some (record t { writers = update t.writers i (writing d.iterations) })
]
writer_act d i (writing (suc n)) s = some (record s {
  shared_array = update s.shared_array d.index d.value;
  writers = update s.writers i (writing n);
})
writer_act d i (writing zero) s =
    some (record s { sem_writer = suc s.sem_writer; writers = update s.writers i resting })

-- The memory and the semaphores that the first writer and the first reader set up.
abbrev pub set_up : (ℕ → ℤ) → State
set_up array = record {
  sem_reader = 1;
  sem_writer = 1;
  readers_count = 0;
  shared_array = array;
  readers = λ _. away;
  writers = λ _. resting;
}

-- The states that `n` readers and `m` writers reach, their steps in any order.
pub data Reach (n m : ℕ) (min max : ℕ → ℤ) : State → Type 0 where
  start : (array : ℕ → ℤ) → Reach n m min max (set_up array)
  read :
      (i : ℕ) {s t : State}
      → i < n
      → Reach n m min max s
      → reader_act (min i) (max i) i (s.readers i) s ≡ some t
      → Reach n m min max t
  write :
      (d : Draw) (i : ℕ) {s t : State}
      → i < m
      → Reach n m min max s
      → writer_act d i (s.writers i) s ≡ some t
      → Reach n m min max t
