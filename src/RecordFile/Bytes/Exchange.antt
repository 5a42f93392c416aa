-- ===== src/RecordFile/Bytes/Exchange.antt =====
-- lab03/zad1/prog.c: the body of the inner loop of `sort` on the bytes.
use operating_systems_agh_la.Base.{
  ℕ, ◌+◌, ◌-◌, ◌*◌, ◌^◌, ◌≤◌, ◌<◌, ◌≡◌, ◌≢◌, sym, ap, subst, ◌∙◌, inl, inr, List, arith, length,
  ◌==◌, Bool, true, false, Bool-cases, if◌then◌else◌,
}
use operating_systems_agh_la.Base.Int.{greater}
use operating_systems_agh_la.Base.Maps.{update}
use operating_systems_agh_la.Base.Slices.{length-slice}
use operating_systems_agh_la.RecordFile.{Structure, exchange}
use operating_systems_agh_la.RecordFile.Bytes.{
  ok, Calls, RawRecord, offset, read_record, write_record, decode, exchange_bytes,
}
use operating_systems_agh_la.RecordFile.Bytes.Ends.{Ends}
use operating_systems_agh_la.RecordFile.Bytes.Posix.{IsPosix}
use operating_systems_agh_la.RecordFile.Bytes.Records.{
  bytes_at, with_record, read_record-content, read_record-bytes_at, write_record-with_record,
}
use operating_systems_agh_la.RecordFile.Bytes.Layout.{
  length-with_record, slice-with_record, bytes_at-with_record, IsRecord, record_before,
  records_apart, record_of, View,
}

-- A file with room for its records, whose places an `int` can hold.
pub record HasRoom (struct_size count : ℕ) (before : List ℕ) : Type 0 where
  pub key_fits : 4 ≤ struct_size
  pub room : count * struct_size + 8 ≤ length before
  pub small : count * struct_size < 2 ^ 31

module _ (struct_size count : ℕ) (before : List ℕ) (fits : HasRoom struct_size count before) where
  inside : (k : ℕ) → k < count → k * struct_size + struct_size + 8 ≤ length before
  inside k lt = omega (arith, record_before struct_size k count lt, fits.room)

  pub offset_lem : (k : ℕ) → k < count → offset struct_size k ≡ ok (k * struct_size + 8)
  unfolding offset
  offset_lem k lt =
      let le = record_before struct_size k count lt in
      let small : k * struct_size < 2 ^ 31 = omega (arith, fits.small) in ground arith

  bytes_at-IsRecord :
      (k : ℕ) (c : List ℕ)
      → k < count
      → length c ≡ length before
      → IsRecord (struct_size - 4) (bytes_at (k * struct_size + 8) (struct_size - 4) c)
  bytes_at-IsRecord k c lt total = (
    length-slice (k * struct_size + 8) 4 c (omega (arith, inside k lt, fits.key_fits)),
    length-slice (k * struct_size + 8 + 4) (struct_size - 4) c
        (omega (arith, inside k lt, fits.key_fits)),
  )

  View-with_record :
      (a : ℕ → Structure) (c : List ℕ) (j : ℕ) (b : RawRecord)
      → j < count
      → IsRecord (struct_size - 4) b
      → View struct_size count before a c
      → View struct_size count before
          (update a j (record_of b))
          (with_record (j * struct_size + 8) b c)
  View-with_record a c j b lt is v = record {
    total = length-with_record p b c room ∙ v.total;
    records = λ k below. elim (Bool-cases (k == j)) [
      | inl here ↦
          let same : k ≡ j = ground arith in
          rw here (
            subst
              (λ x.
                record_of (bytes_at (x * struct_size + 8) (struct_size - 4) (with_record p b c))
                ≡ record_of b)
              (sym same)
              (ap record_of (
                bytes_at-with_record (struct_size - 4) p b c is
                  (omega (arith, inside j lt, fits.key_fits, v.total)))))
      | inr there ↦
          let ne : k ≢ j = ground arith in
          let apart = records_apart struct_size k j ne in
          let key =
            slice-with_record (k * struct_size + 8) 4 p b c room
              (ground (arith, fits.key_fits, is.0, is.1)) in
          let content =
            slice-with_record (k * struct_size + 8 + 4) (struct_size - 4) p b c room
              (ground (arith, fits.key_fits, is.0, is.1)) in
          rw there (cc (key, content, v.records k below))
    ];
    outside = λ q m away.
        slice-with_record q m p b c room
          (ground (arith, is.0, is.1, fits.key_fits, record_before struct_size j count lt))
        ∙ v.outside q m away;
  }
    where
      p : ℕ
      p = j * struct_size + 8

      room : p + length b.key_bytes + length b.data_bytes ≤ length c
      room = omega (arith, inside j lt, v.total, is.0, is.1, fits.key_fits)

  module _ {F : Type 0} (calls : Calls F) (content : F → List ℕ) (place : F → ℕ)
      (posix : IsPosix calls content place) where
    abbrev pub Views : (ℕ → Structure) → F → Type 0
    Views a f = View struct_size count before a (content f)

    -- both records, read one after the other
    read_both :
        (i j : ℕ) (f : F)
        → i < count
        → j < count
        → length (content f) ≡ length before
        → (let r = read_record calls (struct_size - 4) (i * struct_size + 8) f in
            let s = read_record calls (struct_size - 4) (j * struct_size + 8) r.1 in
            (r.0 ≡ bytes_at (i * struct_size + 8) (struct_size - 4) (content f))
            × (s.0 ≡ bytes_at (j * struct_size + 8) (struct_size - 4) (content f))
            × (content s.1 ≡ content f))
    read_both i j f lti ltj total =
        let n = struct_size - 4 in
        let p = i * struct_size + 8 in
        let q = j * struct_size + 8 in
        let f1 = (read_record calls n p f).1 in
        let same = read_record-content calls content place posix n p f in
        let l = ap length same in
        let first =
          read_record-bytes_at calls content place posix n p f
            (omega (arith, inside i lti, fits.key_fits)) in
        let second =
          read_record-bytes_at calls content place posix n q f1
            (omega (arith, inside j ltj, fits.key_fits)) in
        (
          first,
          second ∙ ap (bytes_at q n) same,
          read_record-content calls content place posix n q f1 ∙ same,
        )

    -- both records, written the other way round
    written_both :
        (a : ℕ → Structure) (i j : ℕ) (f : F) (b b' : RawRecord)
        → i < count
        → j < count
        → View struct_size count before a (content f)
        → IsRecord (struct_size - 4) b
        → IsRecord (struct_size - 4) b'
        → Views (update (update a j (record_of b)) i (record_of b')) (
            write_record calls
              (i * struct_size + 8)
              b'
              (write_record calls (j * struct_size + 8) b f))
    written_both a i j f b b' lti ltj v is is' =
        let q = j * struct_size + 8 in
        let once : Views (update a j (record_of b)) (write_record calls q b f) =
          rw
            (write_record-with_record calls content place posix q b f
              (omega (arith, inside j ltj, fits.key_fits, v.total, is.0, is.1)))
            (View-with_record a (content f) j b ltj is v) in
        let f1 = write_record calls q b f in
        rw
          (write_record-with_record calls content place posix (i * struct_size + 8) b' f1
            (omega (arith, inside i lti, fits.key_fits, once.total, is'.0, is'.1)))
          (View-with_record (update a j (record_of b)) (content f1) i b' lti is' once)

    chosen :
        (t u : Bool) (x y : F) (a a' : ℕ → Structure)
        → t ≡ u
        → Views a x
        → Views a' y
        → Views (if u then a else a') (if t then x else y)
    chosen true true x y a a' e vx vy = vx
    chosen false false x y a a' e vx vy = vy
    chosen true false x y a a' e vx vy = cc
    chosen false true x y a a' e vx vy = cc

    pub exchange_bytes-exchange :
        (a : ℕ → Structure) (i j : ℕ) (f : F)
        → i < count
        → j < count
        → Views a f
        → Ends (Views (exchange i j a)) (exchange_bytes calls struct_size i j f)
    unfolding exchange exchange_bytes
    exchange_bytes-exchange a i j f lti ltj v =
        let (e1, e2, same) = read_both i j f lti ltj v.total in
        let ri = v.records i lti in
        let rj = v.records j ltj in
        let n = struct_size - 4 in
        let b = bytes_at (i * struct_size + 8) n (content f) in
        let b' = bytes_at (j * struct_size + 8) n (content f) in
        let f1 = (read_record calls n (i * struct_size + 8) f).1 in
        let f2 = (read_record calls n (j * struct_size + 8) f1).1 in
        let v2 : Views a f2 = subst (View struct_size count before a) (sym same) v in
        let read_i = (read_record calls n (i * struct_size + 8) f).0 in
        let read_j = (read_record calls n (j * struct_size + 8) f1).0 in
        let keys : greater (decode read_i.key_bytes) (decode read_j.key_bytes)
            ≡ greater (a i).key (a j).key =
          cc (e1, e2, ri, rj) in
        rw (offset_lem i lti, offset_lem j ltj)
          (chosen _ (greater (a i).key (a j).key) _ f2 _ a keys
            (rw (e1, e2, sym ri, sym rj)
              (written_both a i j f2 b b' lti ltj v2 (bytes_at-IsRecord i (content f) lti v.total)
                (bytes_at-IsRecord j (content f) ltj v.total)))
            v2)
