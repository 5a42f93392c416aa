-- ===== src/RecordFile/Bytes/Copy.antt =====
-- lab03/zad1/prog.c: the copy of the file.
use operating_systems_agh_la.Base.{
  ℕ, zero, suc, ◌-◌, ◌<◌, ◌≡◌, sym, ap, ◌∙◌, inl, inr, List, [], ◌++◌, arith, length, length-append,
  drop, take, ltb, false, Bool-cases,
}
use operating_systems_agh_la.Base.Slices.{
  splice, splice_end, drop-slice, drop_past, append_assoc, length-drop, length-take_all,
  length-take_short,
}
use operating_systems_agh_la.RecordFile.Bytes.{Calls, buf_size, copy_loop}
use operating_systems_agh_la.RecordFile.Bytes.Posix.{IsPosix}
use operating_systems_agh_la.RecordFile.Bytes.Ends.{Ends, Ends-weaken}

no_more : (n : ℕ) → ltb 0 n ≡ false → n ≡ 0
no_more n e = ground arith

module _ {F : Type 0} (calls : Calls F) (content : F → List ℕ) (place : F → ℕ)
    (posix : IsPosix calls content place) where
  -- an open file that is written at its end
  abbrev pub AtEnd : F → Type 0
  AtEnd f = place f ≡ length (content f)

  pub content-write : (bs : List ℕ) (f : F) → AtEnd f → content (calls.write bs f) ≡ content f ++ bs
  content-write bs f at_end =
      posix.write_content bs f (omega arith)
      ∙ ap (λ p. splice p bs (content f)) at_end
      ∙ splice_end (content f) bs

  pub write-AtEnd : (bs : List ℕ) (f : F) → AtEnd f → AtEnd (calls.write bs f)
  write-AtEnd bs f at_end =
      let l = ap length (content-write bs f at_end) in
      omega (arith, posix.write_place bs f, l, length-append (content f) bs)

  abbrev pub Copied : (original copy : F) → F × F → Type 0
  Copied original copy r =
      (content r.0 ≡ content original)
      × (content r.1 ≡ content copy ++ drop (place original) (content original))

  -- The loop that copies the file ends within one round more than the bytes that are left, leaves
  -- the original as it is, and appends those bytes to the copy. Assumes that the copy is written
  -- at its end, and the documented behaviour of the system calls.
  pub copy_loop-Copied :
      (n : ℕ) (original copy : F)
      → length (content original) - place original < n
      → AtEnd copy
      → Ends (Copied original copy) (copy_loop calls n original copy)
  unfolding copy_loop
  copy_loop-Copied zero original copy fuel at_end = absurd (omega arith)
  copy_loop-Copied (suc n) original copy fuel at_end =
      let c = content original in
      let buffer = (calls.read buf_size original).0 in
      let got = posix.read_bytes buf_size original in
      let size = ap length got in
      let same = posix.read_content buf_size original in
      let next = posix.read_place buf_size original in
      let written = content-write buffer copy at_end in
      let parts = drop-slice (place original) buf_size c in
      let original1 = (calls.read buf_size original).1 in
      let copy1 = calls.write buffer copy in
      elim (Bool-cases (ltb 0 (length buffer))) [
        | inl some_bytes ↦
            let more : 0 < length buffer = ground arith in
            let l = ap length same in
            let most = length-take_all buf_size (drop (place original) c) in
            let left = length-drop (place original) c in
            rw some_bytes (
              Ends-weaken (Copied original1 copy1) (Copied original copy)
                (copy_loop calls n original1 copy1)
                (copy_loop-Copied n original1 copy1 (omega (arith, most, left, next, l, size))
                  (write-AtEnd buffer copy at_end))
                (λ r done. (
                  done.0 ∙ same,
                  done.1
                      ∙ (rw (written, same, next, got) (append_assoc (content copy) _ _))
                      ∙ ap (λ zs. content copy ++ zs) (sym parts),
                )))
        | inr no_bytes ↦
            let none_read = no_more (length buffer) no_bytes in
            let none_left =
              length-take_short buf_size (drop (place original) c)
                (omega (arith, none_read, size)) in
            let nothing : drop (place original) c ≡ [] =
              drop_past (place original) c
                (omega (arith, none_read, size, none_left, length-drop (place original) c)) in
            rw no_bytes (
              same,
              written
                  ∙ ap (λ zs. content copy ++ zs) (got ∙ ap (take buf_size) nothing ∙ sym nothing),
            )
      ]
