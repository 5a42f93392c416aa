-- ===== src/RecordFile/Bytes/Generate.antt =====
-- lab03/zad1/prog.c: the file that `generate` writes.
use operating_systems_agh_la.Base.{
  ℕ, zero, suc, ◌+◌, ◌-◌, ◌*◌, ◌%◌, ◌^◌, ◌≤◌, ◌<◌, ◌≡◌, refl, sym, ap, subst, ◌∙◌, List, [], ◌++◌,
  arith, length, length-append, ltb, false,
}
use operating_systems_agh_la.Base.Int.{pos}
use operating_systems_agh_la.Base.Slices.{
  slice, append_assoc, append_nil, slice-append_left, slice-append_right, slice_all,
}
use operating_systems_agh_la.RecordFile.Bytes.{
  Calls, RawRecord, int_max, encode, decode, draw_data, generate_records, generate_all, generate,
}
use operating_systems_agh_la.RecordFile.Bytes.Codec.{length-encode, decode-encode, IsInt}
use operating_systems_agh_la.RecordFile.Bytes.Posix.{IsPosix}
use operating_systems_agh_la.RecordFile.Bytes.Records.{bytes_at}
use operating_systems_agh_la.RecordFile.Bytes.Layout.{record_of}
use operating_systems_agh_la.RecordFile.Bytes.Refines.{file_of, HasHeader}
use operating_systems_agh_la.RecordFile.Bytes.Copy.{AtEnd, content-write, write-AtEnd}

slice_behind :
    (m n : ℕ) (xs ys : List ℕ) → length xs ≡ m → length ys ≡ n → slice m n (xs ++ ys) ≡ ys
slice_behind m n xs ys e e' =
    let at : m ≡ length xs + 0 = omega arith in
    ap (λ p. slice p n (xs ++ ys)) at
    ∙ slice-append_right 0 n xs ys
    ∙ ap (λ k. slice 0 k ys) (sym e')
    ∙ slice_all ys

bytes_at-append :
    (p n : ℕ) (xs ys : List ℕ) → bytes_at (length xs + p) n (xs ++ ys) ≡ bytes_at p n ys
bytes_at-append p n xs ys =
    let behind : length xs + p + 4 ≡ length xs + (p + 4) = omega arith in
    cc (slice-append_right p 4 xs ys, slice-append_right (p + 4) n xs ys, behind)

slice_front : (n : ℕ) (xs ys : List ℕ) → length xs ≡ n → slice 0 n (xs ++ ys) ≡ xs
slice_front n xs ys e =
    slice-append_left 0 n xs ys (omega arith) ∙ ap (λ k. slice 0 k xs) (sym e) ∙ slice_all xs

module _ (rand : ℕ → ℕ) where
  length-draw_data : (d n : ℕ) → length (draw_data rand d n) ≡ n
  unfolding draw_data
  length-draw_data d zero = refl
  length-draw_data d (suc n) = ap suc (length-draw_data (suc d) n)

  -- The bytes of a record from the number `d` on.
  abbrev drawn_record : (d data_size : ℕ) → RawRecord
  drawn_record d data_size = record {
    key_bytes = encode (pos (rand d % int_max));
    data_bytes = draw_data rand (suc d) data_size;
  }

  -- One record behind the other.
  abbrev drawn_bytes : ℕ → (d data_size : ℕ) → List ℕ
  drawn_bytes zero d data_size = []
  drawn_bytes (suc n) d data_size =
      (encode (pos (rand d % int_max)) ++ draw_data rand (suc d) data_size)
      ++ drawn_bytes n (suc d + data_size) data_size

  length_first :
      (d data_size : ℕ)
      → length (encode (pos (rand d % int_max)) ++ draw_data rand (suc d) data_size) ≡ data_size + 4
  length_first d data_size = omega (
    arith,
    length-append (encode (pos (rand d % int_max))) (draw_data rand (suc d) data_size),
    length-encode (pos (rand d % int_max)),
    length-draw_data (suc d) data_size,
  )

  length-drawn_bytes :
      (n d data_size : ℕ) → length (drawn_bytes n d data_size) ≡ n * (data_size + 4)
  length-drawn_bytes zero d data_size = omega arith
  length-drawn_bytes (suc n) d data_size =
      let one = length_first d data_size in
      let rest = length-drawn_bytes n (suc d + data_size) data_size in
      let both =
        length-append (encode (pos (rand d % int_max)) ++ draw_data rand (suc d) data_size)
          (drawn_bytes n (suc d + data_size) data_size) in
      let product : suc n * (data_size + 4) ≡ (data_size + 4) + n * (data_size + 4) = grind arith in
      omega (arith, one, rest, both, product)

  bytes_at-drawn_bytes :
      (n k d data_size : ℕ)
      → k < n
      → bytes_at (k * (data_size + 4)) data_size (drawn_bytes n d data_size)
        ≡ drawn_record (d + k * (data_size + 1)) data_size
  bytes_at-drawn_bytes zero k d data_size lt = absurd (omega arith)
  bytes_at-drawn_bytes (suc n) zero d data_size lt =
      let e = encode (pos (rand d % int_max)) in
      let dd = draw_data rand (suc d) data_size in
      let rest = drawn_bytes n (suc d + data_size) data_size in
      let le = length-encode (pos (rand d % int_max)) in
      let ld = length-draw_data (suc d) data_size in
      let both = length_first d data_size in
      let key : slice 0 4 ((e ++ dd) ++ rest) ≡ e =
        slice-append_left 0 4 (e ++ dd) rest (omega arith) ∙ slice_front 4 e dd le in
      let content : slice 4 data_size ((e ++ dd) ++ rest) ≡ dd =
        slice-append_left 4 data_size (e ++ dd) rest (omega arith)
        ∙ slice_behind 4 data_size e dd le ld in
      let start : 0 * (data_size + 4) ≡ 0 = omega arith in
      let behind : 0 + 4 ≡ 4 = omega arith in
      let index : d + 0 * (data_size + 1) ≡ d = omega arith in
      rw (start, index) (cc (key, content, behind))
  bytes_at-drawn_bytes (suc n) (suc k) d data_size lt =
      let one = encode (pos (rand d % int_max)) ++ draw_data rand (suc d) data_size in
      let rest = drawn_bytes n (suc d + data_size) data_size in
      let at : suc k * (data_size + 4) ≡ length one + k * (data_size + 4) =
        grind (arith, length_first d data_size) in
      let index : suc d + data_size + k * (data_size + 1) ≡ d + suc k * (data_size + 1) =
        grind arith in
      let later = bytes_at-drawn_bytes n k (suc d + data_size) data_size (omega arith) in
      ap (λ p. bytes_at p data_size (one ++ rest)) at
      ∙ bytes_at-append (k * (data_size + 4)) data_size one rest
      ∙ later
      ∙ ap (λ i. drawn_record i data_size) index

  -- The file `c` holds `count` records of the numbers drawn, behind a header that says so.
  pub record Generated (struct_size count : ℕ) (c : List ℕ) : Type 0 where
    pub total : length c ≡ count * struct_size + 8
    pub header : HasHeader struct_size count c
    pub records :
        (k : ℕ)
        → k < count
        → (file_of struct_size count c).records k ≡ record {
          key = pos (rand (k * (struct_size - 3)) % int_max);
          content = draw_data rand (suc (k * (struct_size - 3))) (struct_size - 4);
        }

  abbrev header_bytes : (struct_size count : ℕ) → List ℕ
  header_bytes struct_size count = encode (pos struct_size) ++ encode (pos count)

  length-header_bytes : (struct_size count : ℕ) → length (header_bytes struct_size count) ≡ 8
  length-header_bytes struct_size count = omega (
    arith,
    length-append (encode (pos struct_size)) (encode (pos count)),
    length-encode (pos struct_size),
    length-encode (pos count),
  )

  key_IsInt : (i : ℕ) → IsInt (pos (rand i % int_max))
  key_IsInt i = omega arith

  drawn_value :
      (i data_size : ℕ)
      → record_of (drawn_record i data_size)
        ≡ record { key = pos (rand i % int_max); content = draw_data rand (suc i) data_size }
  drawn_value i data_size = cc (decode-encode (pos (rand i % int_max)) (key_IsInt i))

  drawn-Generated :
      (struct_size count : ℕ)
      → 4 ≤ struct_size
      → struct_size < 2 ^ 31
      → count < 2 ^ 31
      → Generated struct_size count
          (header_bytes struct_size count ++ drawn_bytes count 0 (struct_size - 4))
  drawn-Generated struct_size count long small few =
      let size : struct_size - 4 + 4 ≡ struct_size = omega arith in
      let e = encode (pos struct_size) in
      let e' = encode (pos count) in
      let h = header_bytes struct_size count in
      let lh = length-header_bytes struct_size count in
      let le = length-encode (pos struct_size) in
      let bytes = drawn_bytes count 0 (struct_size - 4) in
      let l = length-drawn_bytes count 0 (struct_size - 4) in
      let whole = ap (λ n. count * n) size in
      record {
        total = omega (arith, length-append h bytes, lh, l, whole);
        header = (
          ap decode (slice-append_left 0 4 h bytes (omega arith) ∙ slice_front 4 e e' le)
              ∙ decode-encode (pos struct_size) small,
          ap decode (
                slice-append_left 4 4 h bytes (omega arith)
                ∙ slice_behind 4 4 e e' le (length-encode (pos count)))
              ∙ decode-encode (pos count) few,
        );
        records = λ k lt.
            let each = ap (λ n. k * n) size in
            let at : k * struct_size + 8 ≡ length h + k * (struct_size - 4 + 4) =
              omega (arith, lh, each) in
            let less : struct_size - 4 + 1 ≡ struct_size - 3 = omega arith in
            let turn = ap (λ n. k * n) less in
            let index : 0 + k * (struct_size - 4 + 1) ≡ k * (struct_size - 3) =
              omega (arith, turn) in
            ap (λ p. record_of (bytes_at p (struct_size - 4) (h ++ bytes))) at
            ∙ ap record_of (
                bytes_at-append (k * (struct_size - 4 + 4)) (struct_size - 4) h bytes
                ∙ bytes_at-drawn_bytes count k 0 (struct_size - 4) lt
                ∙ ap (λ i. drawn_record i (struct_size - 4)) index)
            ∙ drawn_value (k * (struct_size - 3)) (struct_size - 4);
      }

  module _ {F : Type 0} (calls : Calls F) (content : F → List ℕ) (place : F → ℕ)
      (posix : IsPosix calls content place) where
    generate_records-drawn_bytes :
        (n d data_size : ℕ) (f : F)
        → AtEnd calls content place posix f
        → content (generate_records calls rand n d data_size f)
          ≡ content f ++ drawn_bytes n d data_size
    unfolding generate_records
    generate_records-drawn_bytes zero d data_size f at_end = sym (append_nil (content f))
    generate_records-drawn_bytes (suc n) d data_size f at_end =
        let key = encode (pos (rand d % int_max)) in
        let more = draw_data rand (suc d) data_size in
        let f1 = calls.write key f in
        let end1 = write-AtEnd calls content place posix key f at_end in
        let f2 = calls.write more f1 in
        generate_records-drawn_bytes n (suc d + data_size) data_size f2
          (write-AtEnd calls content place posix more f1 end1)
        ∙ ap (λ c. c ++ drawn_bytes n (suc d + data_size) data_size)
            (content-write calls content place posix more f1 end1
              ∙ ap (λ c. c ++ more) (content-write calls content place posix key f at_end)
              ∙ append_assoc (content f) key more)
        ∙ append_assoc (content f) (key ++ more) (drawn_bytes n (suc d + data_size) data_size)

    generate_all-drawn_bytes :
        (struct_size count : ℕ) (f : F)
        → 4 ≤ struct_size
        → AtEnd calls content place posix f
        → content (generate_all calls rand (pos struct_size) (pos count) f)
          ≡ content f ++ drawn_bytes count 0 (struct_size - 4)
    unfolding generate_all
    generate_all-drawn_bytes struct_size n f long at_end =
        let enough : ltb struct_size 4 ≡ false = ground arith in
        rw (enough, generate_all) (generate_records-drawn_bytes n 0 (struct_size - 4) f at_end)

    -- `generate` on an empty file ends, and the file then has the length of its header and its
    -- records, the header reads as the size and the number of records given, and each record as
    -- the key and the data drawn for it. Assumes a size of at least a key, both below 2 to the
    -- power of 31, and the documented behaviour of the system calls.
    pub generate-Generated :
        (struct_size count : ℕ) (f : F)
        → 4 ≤ struct_size
        → struct_size < 2 ^ 31
        → count < 2 ^ 31
        → content f ≡ []
        → place f ≡ 0
        → Generated struct_size count
            (content (generate calls rand (pos struct_size) (pos count) f))
    unfolding generate
    generate-Generated struct_size count f long small few empty start =
        let h = encode (pos struct_size) in
        let h' = encode (pos count) in
        let f1 = calls.write h f in
        let at_end : place f ≡ length (content f) = start ∙ ap length (sym empty) in
        let end1 = write-AtEnd calls content place posix h f at_end in
        let end2 = write-AtEnd calls content place posix h' f1 end1 in
        let head : content (calls.write h' f1) ≡ h ++ h' =
          content-write calls content place posix h' f1 end1
          ∙ ap (λ c. c ++ h')
              (content-write calls content place posix h f at_end ∙ ap (λ c. c ++ h) empty) in
        subst (Generated struct_size count)
          (sym (
            generate_all-drawn_bytes struct_size count (calls.write h' f1) long end2
            ∙ ap (λ c. c ++ drawn_bytes count 0 (struct_size - 4)) head))
          (drawn-Generated struct_size count long small few)
