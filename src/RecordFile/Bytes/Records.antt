-- ===== src/RecordFile/Bytes/Records.antt =====
-- lab03/zad1/prog.c: one record of the file, read and written.
use operating_systems_agh_la.Base.{ℕ, ◌+◌, ◌≤◌, ◌≡◌, refl, ap, ◌∙◌, List, [], ◌∷◌, arith, length}
use operating_systems_agh_la.Base.Slices.{slice, splice, length-slice, length-splice}
use operating_systems_agh_la.RecordFile.Bytes.{Calls, RawRecord, into, read_record, write_record}
use operating_systems_agh_la.RecordFile.Bytes.Posix.{IsPosix}

into_all : (old got : List ℕ) → length old ≡ length got → into old got ≡ got
into_all [] [] e = refl
into_all [] (y ∷ ys) e = absurd (omega arith)
into_all (x ∷ old) [] e = absurd (omega arith)
into_all (x ∷ old) (y ∷ ys) e = ap (λ zs. y ∷ zs) (into_all old ys (omega arith))

-- The bytes of the record at `p`.
abbrev pub bytes_at : ℕ → ℕ → List ℕ → RawRecord
bytes_at p n c = record { key_bytes = slice p 4 c; data_bytes = slice (p + 4) n c }

-- The file with a record written at `p`.
abbrev pub with_record : ℕ → RawRecord → List ℕ → List ℕ
with_record p b c = splice (p + length b.key_bytes) b.data_bytes (splice p b.key_bytes c)

module _ {F : Type 0} (calls : Calls F) (content : F → List ℕ) (place : F → ℕ)
    (posix : IsPosix calls content place) where
  -- all of a piece that is inside the file
  pub into-read :
      (n : ℕ) (old : List ℕ) (f : F)
      → length old ≡ n
      → place f + n ≤ length (content f)
      → into old (calls.read n f).0 ≡ slice (place f) n (content f)
  into-read n old f known fits =
      let e = posix.read_bytes n f in
      let size = ap length e in
      into_all old (calls.read n f).0
        (omega (arith, known, size, length-slice (place f) n (content f) fits))
      ∙ e

  pub place-read :
      (n : ℕ) (f : F) → place f + n ≤ length (content f) → place (calls.read n f).1 ≡ place f + n
  place-read n f fits =
      let size = ap length (posix.read_bytes n f) in
      omega (arith, posix.read_place n f, size, length-slice (place f) n (content f) fits)

  abbrev after_key : ℕ → F → F
  after_key p f = (calls.read 4 (calls.lseek p f)).1

  content-after_key : (p : ℕ) (f : F) → content (after_key p f) ≡ content f
  content-after_key p f = posix.read_content 4 (calls.lseek p f) ∙ posix.lseek_content p f

  pub read_record-content : (n p : ℕ) (f : F) → content (read_record calls n p f).1 ≡ content f
  unfolding read_record
  read_record-content n p f = posix.read_content n (after_key p f) ∙ content-after_key p f

  pub read_record-bytes_at :
      (n p : ℕ) (f : F)
      → p + 4 + n ≤ length (content f)
      → (read_record calls n p f).0 ≡ bytes_at p n (content f)
  unfolding read_record
  read_record-bytes_at n p f fits =
      let l = ap length (posix.lseek_content p f) in
      let at = posix.lseek_place p f in
      let room : place (calls.lseek p f) + 4 ≤ length (content (calls.lseek p f)) = omega arith in
      let key = into-read 4 (calls.malloc 4) (calls.lseek p f) (posix.malloc_size 4) room in
      let next = place-read 4 (calls.lseek p f) room in
      let same = content-after_key p f in
      let l' = ap length same in
      let behind : place (after_key p f) ≡ p + 4 = omega arith in
      let room' : place (after_key p f) + n ≤ length (content (after_key p f)) = omega arith in
      let data_read = into-read n (calls.malloc n) (after_key p f) (posix.malloc_size n) room' in
      cc (key, data_read, at, same, behind, posix.lseek_content p f)

  pub write_record-with_record :
      (p : ℕ) (b : RawRecord) (f : F)
      → p + length b.key_bytes + length b.data_bytes ≤ length (content f)
      → content (write_record calls p b f) ≡ with_record p b (content f)
  unfolding write_record
  write_record-with_record p b f fits =
      let l = ap length (posix.lseek_content p f) in
      let at = posix.lseek_place p f in
      let sought = calls.lseek p f in
      let first = posix.write_content b.key_bytes sought (omega arith) in
      let l' = ap length first in
      let kept = length-splice (place sought) b.key_bytes (content sought) (omega arith) in
      let behind = posix.write_place b.key_bytes sought in
      let second =
        posix.write_content b.data_bytes (calls.write b.key_bytes sought) (omega arith) in
      cc (first, second, behind, at, posix.lseek_content p f)
