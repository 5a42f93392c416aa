-- ===== src/RecordFile/Bytes/Refines.antt =====
-- lab03/zad1/prog.c: `sort` on the bytes does what `sort` does on the records.
use operating_systems_agh_la.Base.{
  ℕ, zero, suc, ◌+◌, ◌-◌, ◌*◌, ◌≤◌, ◌<◌, ◌≡◌, refl, ap, ◌∙◌, List, arith, length, ltb, false,
}
use operating_systems_agh_la.Base.Int.{pos}
use operating_systems_agh_la.Base.Slices.{slice}
use operating_systems_agh_la.RecordFile.{Structure, File, exchange, inner, outer, sort}
use operating_systems_agh_la.RecordFile.Bytes.{
  Calls, into, decode, exchange_bytes, inner_bytes, outer_bytes, sort_records, sort_bytes,
}
use operating_systems_agh_la.RecordFile.Bytes.Posix.{IsPosix}
use operating_systems_agh_la.RecordFile.Bytes.Records.{bytes_at, into-read, place-read}
use operating_systems_agh_la.RecordFile.Bytes.Layout.{record_of, View}
use operating_systems_agh_la.RecordFile.Bytes.Ends.{Ends, Ends-bind}
use operating_systems_agh_la.RecordFile.Bytes.Exchange.{HasRoom, Views, exchange_bytes-exchange}

-- The records that the bytes of a file stand for.
abbrev pub file_of : (struct_size count : ℕ) → List ℕ → File
file_of struct_size count c = record {
  struct_size = struct_size;
  count = count;
  records = λ k. record_of (bytes_at (k * struct_size + 8) (struct_size - 4) c);
}

-- The header of the bytes `c` says that there are `count` records of `struct_size` bytes.
abbrev pub HasHeader : (struct_size count : ℕ) → List ℕ → Type 0
HasHeader struct_size count c =
    (decode (slice 0 4 c) ≡ pos struct_size) × (decode (slice 4 4 c) ≡ pos count)

module _ {F : Type 0} (calls : Calls F) (content : F → List ℕ) (place : F → ℕ)
    (posix : IsPosix calls content place) where
  module _ (struct_size count : ℕ) (before : List ℕ) (fits : HasRoom struct_size count before) where
    abbrev Holds : (ℕ → Structure) → F → Type 0
    Holds = Views struct_size count before fits calls content place posix

    inner_bytes-inner :
        (n : ℕ) (a : ℕ → Structure) (i j : ℕ) (f : F)
        → i < count
        → j + n ≡ count
        → Holds a f
        → Ends (Holds (inner n i j a)) (inner_bytes calls n struct_size i j f)
    unfolding inner inner_bytes
    inner_bytes-inner zero a i j f lt e v = v
    inner_bytes-inner (suc n) a i j f lt e v =
        Ends-bind (Holds (exchange i j a)) (Holds (inner n i (suc j) (exchange i j a)))
          (exchange_bytes calls struct_size i j f) _
          (exchange_bytes-exchange struct_size count before fits calls content place posix a i j f
            lt (omega arith) v)
          (λ f1 v1. inner_bytes-inner n (exchange i j a) i (suc j) f1 lt (omega arith) v1)

    outer_bytes-outer :
        (n : ℕ) (a : ℕ → Structure) (i : ℕ) (f : F)
        → i + n ≡ count
        → Holds a f
        → Ends (Holds (outer n i a)) (outer_bytes calls n struct_size i f)
    unfolding outer outer_bytes
    outer_bytes-outer zero a i f e v = v
    outer_bytes-outer (suc n) a i f e v =
        Ends-bind (Holds (inner (suc n) i i a)) (Holds (outer n (suc i) (inner (suc n) i i a)))
          (inner_bytes calls (suc n) struct_size i i f) _
          (inner_bytes-inner (suc n) a i i f (omega arith) e v)
          (λ f1 v1. outer_bytes-outer n (inner (suc n) i i a) (suc i) f1 (omega arith) v1)

    sort_records-outer :
        (n : ℕ) (a : ℕ → Structure) (f : F)
        → n ≡ count
        → Holds a f
        → Ends (Holds (outer n 0 a)) (sort_records calls (pos struct_size) (pos n) f)
    unfolding sort_records outer
    sort_records-outer zero a f e v = v
    sort_records-outer (suc n) a f e v =
        let long : ltb struct_size 4 ≡ false = ground (arith, fits.key_fits) in
        rw long (outer_bytes-outer (suc n) a 0 f (omega arith) v)

  -- the header of a file, read into two variables
  header_read :
      (h1 h2 : List ℕ) (f : F)
      → length h1 ≡ 4
      → length h2 ≡ 4
      → place f ≡ 0
      → 8 ≤ length (content f)
      → (let r = calls.read 4 f in
          let s = calls.read 4 r.1 in
          (into h1 r.0 ≡ slice 0 4 (content f))
          × (into h2 s.0 ≡ slice 4 4 (content f))
          × (content s.1 ≡ content f))
  header_read h1 h2 f l1 l2 start long =
      let f1 = (calls.read 4 f).1 in
      let same = posix.read_content 4 f in
      let l = ap length same in
      let first = into-read calls content place posix 4 h1 f l1 (omega arith) in
      let behind = place-read calls content place posix 4 f (omega arith) in
      let at : place f1 ≡ 4 = omega arith in
      let second = into-read calls content place posix 4 h2 f1 l2 (omega arith) in
      (
        first ∙ ap (λ p. slice p 4 (content f)) start,
        second ∙ ap (λ p. slice p 4 (content f1)) at ∙ ap (slice 4 4) same,
        posix.read_content 4 f1 ∙ same,
      )

  -- On a file just opened whose header gives `count` records of `struct_size` bytes, and that has
  -- room for them, `sort` on the bytes ends, and the file then holds the records that `sort` on
  -- the records gives; its length, its header and what lies behind the records stay. Assumes a
  -- size of at least a key, that all records take less than 2 GB, and the documented behaviour of
  -- the system calls.
  pub sort_bytes-sort :
      (struct_size count : ℕ) (h1 h2 : List ℕ) (f : F)
      → HasHeader struct_size count (content f)
      → HasRoom struct_size count (content f)
      → length h1 ≡ 4
      → length h2 ≡ 4
      → place f ≡ 0
      → Ends
          (λ f'.
            View struct_size count
              (content f)
              (sort (file_of struct_size count (content f))).records
              (content f'))
          (sort_bytes calls h1 h2 f)
  unfolding sort sort_bytes
  sort_bytes-sort struct_size count h1 h2 f header fits l1 l2 start =
      let (e1, e2, same) = header_read h1 h2 f l1 l2 start (omega (arith, fits.room)) in
      let f2 = (calls.read 4 (calls.read 4 f).1).1 in
      let records = (file_of struct_size count (content f)).records in
      rw (e1, e2, header.0, header.1)
        (sort_records-outer struct_size count (content f) fits count records f2 refl record {
          total = ap length same;
          records =
              λ k lt. ap (λ c. record_of (bytes_at (k * struct_size + 8) (struct_size - 4) c)) same;
          outside = λ q m away. ap (slice q m) same;
        })
