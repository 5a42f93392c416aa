-- ===== src/ReadersWriters/Exclusion.antt =====
-- lab08/zad2: who is at the array at the same time, and what a reader counts.
use mathlib.Core.Option.{some-injective}
use operating_systems_agh_la.Base.{
  ℕ, zero, suc, ◌<◌, ◌≡◌, refl, subst, ◌≢◌, Option, none, some, ◌==◌, inl, inr, Bool-cases, arith,
}
use operating_systems_agh_la.Base.Int.{ℤ}
use operating_systems_agh_la.Base.Totals.{total, total-update, one-total, two-total}
use operating_systems_agh_la.ReadersWriters.{
  away, reading, WriterPc, resting, writing, State, wait_writer, reader_act, Draw, writer_act,
  set_up, Reach, start, read, write,
}
use operating_systems_agh_la.ReadersWriters.Invariant.{
  gate, coming, passed, going, busy, matches, IsInvariant, Keeps, reader_act-Keeps,
}

module _ (n m : ℕ) (min max : ℕ → ℤ) where
  module _ (s : State) (i : ℕ) (lt : i < m) (inv : IsInvariant n m min max s) where
    writer_alone :
        busy (s.writers i) ≡ 1
        → (total passed n s.readers ≡ 0)
          × (total going n s.readers ≡ 0)
          × (total busy m s.writers ≡ 1)
    writer_alone writes = ground (arith, inv.writer_one, one-total busy m i s.writers lt)

    no_reader : busy (s.writers i) ≡ 1 → (j k result : ℕ) → j < n → s.readers j ≢ reading k result
    no_reader writes j k result lt' =
        ground (arith, writer_alone writes, one-total passed n j s.readers lt')

    writer_act-Keeps :
        (d : Draw) (p : WriterPc) → s.writers i ≡ p → Keeps n m min max (writer_act d i p s)
    unfolding writer_act wait_writer
    writer_act-Keeps d resting at = elim (Bool-cases (s.sem_writer == 0)) [
      | inl shut ↦ rw (shut, Keeps) tt
      | inr open_ ↦
          rw (open_, Keeps)
            record {
              gate_one = inv.gate_one;
              count = inv.count;
              writer_one = ground (
                arith,
                at,
                inv.writer_one,
                total-update busy m i s.writers (writing d.iterations) lt,
              );
              counting = inv.counting;
            }
    ]
    writer_act-Keeps d (writing (suc k)) at = record {
      gate_one = inv.gate_one;
      count = inv.count;
      writer_one =
          ground (arith, at, inv.writer_one, total-update busy m i s.writers (writing k) lt);
      counting =
          λ j l result lt' reads. absurd (no_reader (ground (arith, at)) j l result lt' reads);
    }
    writer_act-Keeps d (writing zero) at = record {
      gate_one = inv.gate_one;
      count = inv.count;
      writer_one = ground (arith, at, inv.writer_one, total-update busy m i s.writers resting lt);
      counting = inv.counting;
    }

  Keeps-step :
      (r : Option State) {t : State} → Keeps n m min max r → r ≡ some t → IsInvariant n m min max t
  Keeps-step none keeps e = ground arith
  Keeps-step (some s) {t} keeps e = subst (IsInvariant n m min max) (some-injective s t e) keeps

  total-idle : {A : Type 0} (w : A → ℕ) (a : A) (l : ℕ) → w a ≡ 0 → total w l (λ _. a) ≡ 0
  unfolding total
  total-idle w a zero none_ = refl
  total-idle w a (suc l) none_ = omega (arith, none_, total-idle w a l none_)

  start-IsInvariant : (array : ℕ → ℤ) → IsInvariant n m min max (set_up array)
  start-IsInvariant array = record {
    gate_one = omega (arith, total-idle gate away n refl);
    count = omega (arith, total-idle passed away n refl, total-idle coming away n refl);
    writer_one = ground (
      arith,
      total-idle busy resting m refl,
      total-idle passed away n refl,
      total-idle going away n refl,
    );
    counting = λ j k result lt reads. ground arith;
  }

  Reach-IsInvariant : {s : State} → Reach n m min max s → IsInvariant n m min max s
  Reach-IsInvariant (start array) = start-IsInvariant array
  Reach-IsInvariant (read i {s} lt r e) =
      Keeps-step (reader_act (min i) (max i) i (s.readers i) s)
        (reader_act-Keeps n m min max s i lt (Reach-IsInvariant r) (s.readers i) refl) e
  Reach-IsInvariant (write d i {s} lt r e) =
      Keeps-step (writer_act d i (s.writers i) s)
        (writer_act-Keeps s i lt (Reach-IsInvariant r) d (s.writers i) refl) e

  -- In every reachable state, while a writer writes no other writer does and no reader reads.
  pub writing-exclusive :
      {s : State}
      → Reach n m min max s
      → (i k : ℕ) → i < m
      → s.writers i ≡ writing k
      → ((j l : ℕ) → j < m → s.writers j ≡ writing l → j ≡ i)
        × ((j l result : ℕ) → j < n → s.readers j ≢ reading l result)
  writing-exclusive {s} r i k lt writes = (
    (λ j l lt' writes'. elim (Bool-cases (j == i)) [
      | inl same ↦ ground arith
      | inr other ↦
          let alone = writer_alone s i lt (Reach-IsInvariant r) (ground (arith, writes)) in
          ground (arith, alone, two-total busy m j i s.writers lt' lt (ground arith))
    ]),
    no_reader s i lt (Reach-IsInvariant r) (ground (arith, writes)),
  )

  -- In every reachable state, what a reader has counted are the cells of its range among those it
  -- has read, of the array as it is now: no modification comes in between.
  pub reading-matches :
      {s : State}
      → Reach n m min max s
      → (i k result : ℕ) → i < n
      → s.readers i ≡ reading k result
      → result ≡ matches (min i) (max i) k s.shared_array
  reading-matches r = (Reach-IsInvariant r).counting
