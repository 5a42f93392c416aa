-- ===== src/RecordFile/Bytes/Posix.antt =====
-- lab03/zad1/prog.c: what the manual says of the calls on a regular file, which do not fail.
use operating_systems_agh_la.Base.{ℕ, ◌+◌, ◌≤◌, ◌≡◌, List, length}
use operating_systems_agh_la.Base.Slices.{slice, splice}
use operating_systems_agh_la.RecordFile.Bytes.{Calls}

-- `content` and `place` are the bytes of an open file and its offset.
pub record IsPosix {F : Type 0} (calls : Calls F) (content : F → List ℕ) (place : F → ℕ)
    : Type 0 where
  pub lseek_content : (p : ℕ) (f : F) → content (calls.lseek p f) ≡ content f
  pub lseek_place : (p : ℕ) (f : F) → place (calls.lseek p f) ≡ p
  pub read_bytes : (n : ℕ) (f : F) → (calls.read n f).0 ≡ slice (place f) n (content f)
  pub read_content : (n : ℕ) (f : F) → content (calls.read n f).1 ≡ content f
  pub read_place : (n : ℕ) (f : F) → place (calls.read n f).1 ≡ place f + length (calls.read n f).0
  pub write_content :
      (bs : List ℕ) (f : F)
      → place f ≤ length (content f)
      → content (calls.write bs f) ≡ splice (place f) bs (content f)
  pub write_place : (bs : List ℕ) (f : F) → place (calls.write bs f) ≡ place f + length bs
  pub malloc_size : (n : ℕ) → length (calls.malloc n) ≡ n
