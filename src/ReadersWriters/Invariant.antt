-- ===== src/ReadersWriters/Invariant.antt =====
-- lab08/zad2: what the counts and the semaphores say of the readers and writers, and the steps of a
-- reader.
use operating_systems_agh_la.Base.{
  ℕ, zero, suc, ◌+◌, ◌<◌, ◌≤◌, ◌≡◌, ◌≢◌, Option, none, some, ◌==◌, ltb, if◌then◌else◌, inl, inr,
  Bool-cases, arith,
}
use operating_systems_agh_la.Base.Int.{ℤ}
use operating_systems_agh_la.Base.Maps.{update}
use operating_systems_agh_la.Base.Totals.{total, total-update, total-others, one-total}
use operating_systems_agh_la.ReadersWriters.{
  tab_length, ReaderPc, away, entering, counted_in, settled, reading, departing, counted_out,
  released, WriterPc, resting, writing, State, in_range, wait_reader, wait_writer, reader_act,
}

-- 1 for a reader that has `sem_reader`
abbrev pub gate : ReaderPc → ℕ
gate away = 0
gate (reading i result) = 0
gate _ = 1

-- 1 for a reader that is counted and not yet past `sem_writer`
abbrev pub coming : ReaderPc → ℕ
coming counted_in = 1
coming _ = 0

-- 1 for a reader that is counted and past `sem_writer`
abbrev pub passed : ReaderPc → ℕ
passed settled = 1
passed (reading i result) = 1
passed departing = 1
passed _ = 0

-- 1 for a reader that is no longer counted and has not yet tested the count
abbrev pub going : ReaderPc → ℕ
going counted_out = 1
going _ = 0

abbrev pub busy : WriterPc → ℕ
busy resting = 0
busy (writing n) = 1

-- 1 when the readers have `sem_writer`
abbrev pub held : (passed_readers going_readers : ℕ) → ℕ
held zero g = g
held (suc p) g = 1

-- the cells before `k` that lie between `min` and `max`
unfoldable pub matches : (min max : ℤ) → ℕ → (ℕ → ℤ) → ℕ
matches min max zero array = 0
matches min max (suc k) array =
    if in_range min max (array k) then suc (matches min max k array) else matches min max k array

module _ (n m : ℕ) (min max : ℕ → ℤ) where
  pub record IsInvariant (s : State) : Type 0 where
    pub gate_one : s.sem_reader + total gate n s.readers ≡ 1
    pub count : s.readers_count ≡ total passed n s.readers + total coming n s.readers
    pub writer_one :
        s.sem_writer
          + total busy m s.writers
          + held (total passed n s.readers) (total going n s.readers)
        ≡ 1
    pub counting :
        (i k result : ℕ)
        → i < n
        → s.readers i ≡ reading k result
        → result ≡ matches (min i) (max i) k s.shared_array

  abbrev pub Keeps : Option State → Type 0
  Keeps none = Unit
  Keeps (some s) = IsInvariant s

  coming_gate : (p : ReaderPc) → coming p ≤ gate p
  coming_gate counted_in = omega arith
  coming_gate p = omega arith

  going_gate : (p : ReaderPc) → going p ≤ gate p
  going_gate counted_out = omega arith
  going_gate p = omega arith

  -- What the sums become when reader `i` goes to `to`.
  record Sums (s : State) (i : ℕ) (to : ReaderPc) : Type 0 where
    gates :
        total gate n (update s.readers i to) + gate (s.readers i) ≡ total gate n s.readers + gate to
    comings :
        total coming n (update s.readers i to) + coming (s.readers i)
        ≡ total coming n s.readers + coming to
    passeds :
        total passed n (update s.readers i to) + passed (s.readers i)
        ≡ total passed n s.readers + passed to
    goings :
        total going n (update s.readers i to) + going (s.readers i)
        ≡ total going n s.readers + going to
    others_coming :
        total coming n s.readers + gate (s.readers i)
        ≤ total gate n s.readers + coming (s.readers i)
    others_going :
        total going n s.readers + gate (s.readers i) ≤ total gate n s.readers + going (s.readers i)
    here : passed (s.readers i) ≤ total passed n s.readers

  sums : (s : State) (i : ℕ) (to : ReaderPc) → i < n → Sums s i to
  sums s i to lt = record {
    gates = total-update gate n i s.readers to lt;
    comings = total-update coming n i s.readers to lt;
    passeds = total-update passed n i s.readers to lt;
    goings = total-update going n i s.readers to lt;
    others_coming = total-others coming gate coming_gate n i s.readers lt;
    others_going = total-others going gate going_gate n i s.readers lt;
    here = one-total passed n i s.readers lt;
  }

  -- A reader that goes to `to` and does not read there leaves what the others have counted.
  still_counting :
      (s : State) (i : ℕ) (to : ReaderPc)
      → IsInvariant s
      → ((k result : ℕ) → to ≢ reading k result)
      → (j k result : ℕ) → j < n
      → update s.readers i to j ≡ reading k result
      → result ≡ matches (min j) (max j) k s.shared_array
  still_counting s i to inv quiet j k result lt at =
      ground (arith, inv.counting j k result lt, quiet k result)

  module _ (s : State) (i : ℕ) (lt : i < n) (inv : IsInvariant s) where
    pub reader_act-Keeps :
        (p : ReaderPc) → s.readers i ≡ p → Keeps (reader_act (min i) (max i) i p s)
    unfolding reader_act wait_reader wait_writer matches
    reader_act-Keeps away at = elim (Bool-cases (s.sem_reader == 0)) [
      | inl shut ↦ rw (shut, Keeps) tt
      | inr open_ ↦
          let f = sums s i entering lt in
          rw (open_, Keeps)
            record {
              gate_one = ground (arith, at, inv.gate_one, f.gates);
              count = ground (arith, at, inv.count, f.passeds, f.comings);
              writer_one = ground (arith, at, inv.writer_one, f.passeds, f.goings);
              counting = still_counting s i entering inv (λ k result. ground arith);
            }
    ]
    reader_act-Keeps entering at =
        let f = sums s i counted_in lt in
        record {
          gate_one = ground (arith, at, inv.gate_one, f.gates);
          count = ground (arith, at, inv.count, f.passeds, f.comings);
          writer_one = ground (arith, at, inv.writer_one, f.passeds, f.goings);
          counting = still_counting s i counted_in inv (λ k result. ground arith);
        }
    reader_act-Keeps counted_in at =
        let f = sums s i settled lt in
        elim (Bool-cases (s.readers_count == 1)) [
          | inl first ↦ elim (Bool-cases (s.sem_writer == 0)) [
            | inl shut ↦ rw (first, shut, Keeps) tt
            | inr open_ ↦
                rw (first, open_, Keeps)
                  record {
                    gate_one =
                        ground (arith, at, inv.gate_one, f.gates, inv.gate_one, f.others_going);
                    count =
                        ground (
                          arith, at, inv.count, f.passeds, f.comings, inv.gate_one, f.others_going,
                        );
                    writer_one = ground (
                      arith, at, inv.count, inv.writer_one, f.passeds, f.goings, inv.gate_one,
                      f.others_going,
                    );
                    counting = still_counting s i settled inv (λ k result. ground arith);
                  }
          ]
          | inr later ↦
              rw (later, Keeps)
                record {
                  gate_one =
                      ground (arith, at, inv.gate_one, f.gates, inv.gate_one, f.others_going);
                  count =
                      ground
                        (arith, at, inv.count, f.passeds, f.comings, inv.gate_one, f.others_going);
                  writer_one = ground (
                    arith, at, inv.count, inv.writer_one, f.passeds, f.goings, inv.gate_one,
                    f.others_going,
                  );
                  counting = still_counting s i settled inv (λ k result. ground arith);
                }
        ]
    reader_act-Keeps settled at =
        let f = sums s i (reading 0 0) lt in
        record {
          gate_one = ground (arith, at, inv.gate_one, f.gates);
          count = ground (arith, at, inv.count, f.passeds, f.comings);
          writer_one = ground (arith, at, inv.count, inv.writer_one, f.passeds, f.goings);
          counting = λ j k result lt' at'. ground (arith, inv.counting j k result lt');
        }
    reader_act-Keeps (reading k result) at = elim (Bool-cases (ltb k tab_length)) [
      | inl more ↦
          let f =
            sums s i
              (reading (suc k)
                (if in_range (min i) (max i) (s.shared_array k) then suc result else result))
              lt in
          rw (more, Keeps)
            record {
              gate_one = ground (arith, at, inv.gate_one, f.gates);
              count = ground (arith, at, inv.count, f.passeds, f.comings);
              writer_one = ground (arith, at, inv.count, inv.writer_one, f.passeds, f.goings);
              counting = λ j k' result' lt' at'.
                  ground (arith, at, inv.counting i k result lt at, inv.counting j k' result' lt');
            }
      | inr done ↦ elim (Bool-cases (s.sem_reader == 0)) [
        | inl shut ↦ rw (done, shut, Keeps) tt
        | inr open_ ↦
            let f = sums s i departing lt in
            rw (done, open_, Keeps)
              record {
                gate_one = ground (arith, at, inv.gate_one, f.gates);
                count = ground (arith, at, inv.count, f.passeds, f.comings);
                writer_one = ground (arith, at, inv.count, inv.writer_one, f.passeds, f.goings);
                counting = still_counting s i departing inv (λ k result. ground arith);
              }
      ]
    ]
    reader_act-Keeps departing at =
        let f = sums s i counted_out lt in
        record {
          gate_one = ground (
            arith, at, inv.gate_one, f.gates, f.here, inv.gate_one, f.others_coming, f.others_going,
          );
          count = ground (
            arith, at, inv.count, f.passeds, f.comings, f.here, inv.gate_one, f.others_coming,
            f.others_going,
          );
          writer_one = ground (
            arith, at, inv.count, inv.writer_one, f.passeds, f.goings, f.here, inv.gate_one,
            f.others_coming, f.others_going,
          );
          counting = still_counting s i counted_out inv (λ k result. ground arith);
        }
    reader_act-Keeps counted_out at =
        let f = sums s i released lt in
        elim (Bool-cases (s.readers_count == 0)) [
          | inl last ↦ rw last record {
            gate_one =
                ground
                  (arith, at, inv.gate_one, f.gates, inv.gate_one, f.others_coming, f.others_going);
            count = ground (
              arith, at, inv.count, f.passeds, f.comings, inv.gate_one, f.others_coming,
              f.others_going,
            );
            writer_one = ground (
              arith, at, inv.count, inv.writer_one, f.passeds, f.goings, inv.gate_one,
              f.others_coming, f.others_going,
            );
            counting = still_counting s i released inv (λ k result. ground arith);
          }
          | inr others ↦ rw others record {
            gate_one =
                ground
                  (arith, at, inv.gate_one, f.gates, inv.gate_one, f.others_coming, f.others_going);
            count = ground (
              arith, at, inv.count, f.passeds, f.comings, inv.gate_one, f.others_coming,
              f.others_going,
            );
            writer_one = ground (
              arith, at, inv.count, inv.writer_one, f.passeds, f.goings, inv.gate_one,
              f.others_coming, f.others_going,
            );
            counting = still_counting s i released inv (λ k result. ground arith);
          }
        ]
    reader_act-Keeps released at =
        let f = sums s i away lt in
        record {
          gate_one = ground (arith, at, inv.gate_one, f.gates);
          count = ground (arith, at, inv.count, f.passeds, f.comings);
          writer_one = ground (arith, at, inv.count, inv.writer_one, f.passeds, f.goings);
          counting = still_counting s i away inv (λ k result. ground arith);
        }
