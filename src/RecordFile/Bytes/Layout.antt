-- ===== src/RecordFile/Bytes/Layout.antt =====
-- lab03/zad1/prog.c: what the write of one record leaves of the others and of the header.
use operating_systems_agh_la.Base.{
  ℕ, ◌+◌, ◌-◌, ◌*◌, ◌≤◌, ◌<◌, ◌≡◌, ◌≢◌, ◌∙◌, ◌⊎◌, inl, inr, List, arith, length, ltb, Bool-cases,
}
use operating_systems_agh_la.Base.Slices.{
  slice, splice, length-splice, slice-splice_self, slice-splice_apart,
}
use operating_systems_agh_la.RecordFile.{Structure}
use operating_systems_agh_la.RecordFile.Bytes.{RawRecord, decode}
use operating_systems_agh_la.RecordFile.Bytes.Records.{bytes_at, with_record}

pub length-with_record :
    (p : ℕ) (b : RawRecord) (c : List ℕ)
    → p + length b.key_bytes + length b.data_bytes ≤ length c
    → length (with_record p b c) ≡ length c
length-with_record p b c fits =
    let l = length-splice p b.key_bytes c (omega arith) in
    length-splice (p + length b.key_bytes) b.data_bytes (splice p b.key_bytes c) (omega arith) ∙ l

pub slice-with_record :
    (q m p : ℕ) (b : RawRecord) (c : List ℕ)
    → p + length b.key_bytes + length b.data_bytes ≤ length c
    → (q + m ≤ p) ⊎ (p + length b.key_bytes + length b.data_bytes ≤ q)
    → slice q m (with_record p b c) ≡ slice q m c
slice-with_record q m p b c fits apart =
    let l = length-splice p b.key_bytes c (omega arith) in
    slice-splice_apart q m (p + length b.key_bytes) b.data_bytes (splice p b.key_bytes c)
      (omega arith) (ground arith)
    ∙ slice-splice_apart q m p b.key_bytes c (omega arith) (ground arith)

-- A record of `n` bytes behind its key.
abbrev pub IsRecord : ℕ → RawRecord → Type 0
IsRecord n b = (length b.key_bytes ≡ 4) × (length b.data_bytes ≡ n)

pub bytes_at-with_record :
    (n p : ℕ) (b : RawRecord) (c : List ℕ)
    → IsRecord n b
    → p + 4 + n ≤ length c
    → bytes_at p n (with_record p b c) ≡ b
bytes_at-with_record n p b c is fits =
    let l = length-splice p b.key_bytes c (omega (arith, is.0)) in
    let key_kept =
      slice-splice_apart p (length b.key_bytes) (p + length b.key_bytes) b.data_bytes
        (splice p b.key_bytes c) (omega (arith, is.0, is.1)) (inl (omega arith)) in
    let key = slice-splice_self p b.key_bytes c (omega (arith, is.0)) in
    let content =
      slice-splice_self (p + length b.key_bytes) b.data_bytes (splice p b.key_bytes c)
        (omega (arith, is.0, is.1)) in
    cc (key_kept, key, content, is.0, is.1)

-- The places of two records.
pub record_before : (struct_size i j : ℕ) → i < j → i * struct_size + struct_size ≤ j * struct_size
record_before struct_size i j lt = grind arith

pub records_apart :
    (struct_size i j : ℕ)
    → i ≢ j
    → (i * struct_size + 8 + struct_size ≤ j * struct_size + 8)
      ⊎ (j * struct_size + 8 + struct_size ≤ i * struct_size + 8)
records_apart struct_size i j ne = elim (Bool-cases (ltb i j)) [
  | inl lt ↦ inl (omega (arith, record_before struct_size i j (ground arith)))
  | inr ge ↦ let gt : j < i = ground arith in inr (omega (arith, record_before struct_size j i gt))
]

-- The record that bytes stand for.
abbrev pub record_of : RawRecord → Structure
record_of b = record { key = decode b.key_bytes; content = b.data_bytes }

-- The content `c` of a file holds the records of `a` below `count`; in the header and behind the
-- records, and in its length, it is still `before`.
pub record View (struct_size count : ℕ) (before : List ℕ) (a : ℕ → Structure) (c : List ℕ)
    : Type 0 where
  pub total : length c ≡ length before
  pub records :
      (k : ℕ) → k < count → record_of (bytes_at (k * struct_size + 8) (struct_size - 4) c) ≡ a k
  pub outside :
      (q m : ℕ) → (q + m ≤ 8) ⊎ (count * struct_size + 8 ≤ q) → slice q m c ≡ slice q m before
