-- ===== src/RecordFile/Bytes/Examples.antt =====
-- lab03/zad1/prog.c at work on small files in memory.
use operating_systems_agh_la.Base.{ℕ, zero, suc, ◌+◌, ◌≡◌, refl, ap, List, [], ◌∷◌, length, arith}
use operating_systems_agh_la.Base.Int.{pos}
use operating_systems_agh_la.Base.Slices.{slice, splice}
use operating_systems_agh_la.RecordFile.{sort}
use operating_systems_agh_la.RecordFile.Bytes.{
  Outcome, ok, overflow, Calls, offset, decode, sort_bytes, generate, copy_loop,
}
use operating_systems_agh_la.RecordFile.Bytes.Posix.{IsPosix}
use operating_systems_agh_la.RecordFile.Bytes.Layout.{View}
use operating_systems_agh_la.RecordFile.Bytes.Ends.{Ends}
use operating_systems_agh_la.RecordFile.Bytes.Refines.{file_of, HasHeader, sort_bytes-sort}
use operating_systems_agh_la.RecordFile.Bytes.Generate.{Generated, generate-Generated}
use operating_systems_agh_la.RecordFile.Bytes.Copy.{Copied, copy_loop-Copied}

record Disk : Type 0 where
  bytes : List ℕ
  at : ℕ

abbrev zeros : ℕ → List ℕ
zeros zero = []
zeros (suc n) = 0 ∷ zeros n

abbrev disk_calls : Calls Disk
disk_calls = record {
  lseek = λ p f. record f { at = p };
  read = λ n f. (slice f.at n f.bytes, record f { at = f.at + length (slice f.at n f.bytes) });
  write = λ bs f. record { bytes = splice f.at bs f.bytes; at = f.at + length bs };
  malloc = zeros;
}

length-zeros : (n : ℕ) → length (zeros n) ≡ n
length-zeros zero = refl
length-zeros (suc n) = ap suc (length-zeros n)

disk_calls-IsPosix : IsPosix disk_calls (λ f. f.bytes) (λ f. f.at)
disk_calls-IsPosix = record {
  lseek_content = λ p f. refl;
  lseek_place = λ p f. refl;
  read_bytes = λ n f. refl;
  read_content = λ n f. refl;
  read_place = λ n f. refl;
  write_content = λ bs f le. refl;
  write_place = λ bs f. refl;
  malloc_size = length-zeros;
}

abbrev opened : List ℕ → Disk
opened bs = record { bytes = bs; at = 0 }

abbrev content_of : Outcome Disk → List ℕ
content_of (ok f) = f.bytes
content_of o = []

-- Two records of five bytes, with the keys 7 and -2.
abbrev two_records : List ℕ
two_records = 5 ∷ 0 ∷ 0 ∷ 0 ∷ 2 ∷ 0 ∷ 0 ∷ 0 ∷ 7 ∷ 0 ∷ 0 ∷ 0 ∷ 1 ∷ 254 ∷ 255 ∷ 255 ∷ 255 ∷ 2 ∷ []

sorted_bytes :
    content_of (sort_bytes disk_calls (zeros 4) (zeros 4) (opened two_records))
    ≡ 5 ∷ 0 ∷ 0 ∷ 0 ∷ 2 ∷ 0 ∷ 0 ∷ 0 ∷ 254 ∷ 255 ∷ 255 ∷ 255 ∷ 2 ∷ 7 ∷ 0 ∷ 0 ∷ 0 ∷ 1 ∷ []
unfolding sort_bytes
sorted_bytes = refl

-- Of records that are shorter than their key the keys are written.
short_records :
    (generate disk_calls (λ i. 5 + i) (pos 3) (pos 2) (opened [])).bytes
    ≡ 3 ∷ 0 ∷ 0 ∷ 0 ∷ 2 ∷ 0 ∷ 0 ∷ 0 ∷ 5 ∷ 0 ∷ 0 ∷ 0 ∷ 6 ∷ 0 ∷ 0 ∷ 0 ∷ []
unfolding generate
short_records = refl

-- A place behind 2 GB.
far_record : offset 65536 32768 ≡ overflow
unfolding offset
far_record = refl

two_records-HasHeader : HasHeader 5 2 two_records
unfolding decode
two_records-HasHeader = (refl, refl)

sort_bytes-sort_example :
    Ends
      (λ f. View 5 2 two_records (sort (file_of 5 2 two_records)).records f.bytes)
      (sort_bytes disk_calls (zeros 4) (zeros 4) (opened two_records))
sort_bytes-sort_example =
    sort_bytes-sort disk_calls (λ f. f.bytes) (λ f. f.at) disk_calls-IsPosix 5 2 (zeros 4) (zeros 4)
      (opened two_records) two_records-HasHeader
      (record { key_fits = omega arith; room = omega arith; small = omega arith }) refl refl refl

generate-Generated_example :
    Generated
      (λ i. 40 + i)
      6
      3
      (generate disk_calls (λ i. 40 + i) (pos 6) (pos 3) (opened [])).bytes
generate-Generated_example =
    generate-Generated (λ i. 40 + i) disk_calls (λ f. f.bytes) (λ f. f.at) disk_calls-IsPosix 6 3
      (opened []) (omega arith) (omega arith) (omega arith) refl refl

copy_loop-Copied_example :
    Ends
      (Copied disk_calls
        (λ f. f.bytes)
        (λ f. f.at)
        disk_calls-IsPosix
        (opened two_records)
        (opened []))
      (copy_loop disk_calls 19 (opened two_records) (opened []))
copy_loop-Copied_example =
    copy_loop-Copied disk_calls (λ f. f.bytes) (λ f. f.at) disk_calls-IsPosix 19
      (opened two_records) (opened []) (omega arith) refl
