-- ===== src/Finder/Fill.antt =====
-- lab09/zad1/finder.c: the buffer after a `read`.
use operating_systems_agh_la.Base.{
  ℕ, ◌<◌, ◌≡◌, refl, sym, ◌∙◌, Option, none, some, List, length, get_elem?,
}
use operating_systems_agh_la.Finder.{Mode, Reads, fill, int_limit}
use operating_systems_agh_la.Finder.Within.{Piece}
use operating_systems_agh_la.Finder.Examine.{Block, get_elem?-below}

filled : (o : Option ℕ) (old b : ℕ) → o ≡ some b → o ≡ some (elim o [ none ↦ old | some b ↦ b ])
filled none old b e = cc
filled (some c) old b e = refl

module _ (mode : Mode) (read : Reads) (pattern : List ℕ) (buffer_size : ℕ) where
  fill-some :
      (bytes : List ℕ) (buffer : ℕ → ℕ) (i : ℕ)
      → i < length bytes
      → get_elem? bytes i ≡ some (fill mode read pattern buffer_size bytes buffer i)
  fill-some bytes buffer i lt =
      let (b, e) = get_elem?-below bytes i lt in filled (get_elem? bytes i) (buffer i) b e

  pub fill-Block :
      (file bytes : List ℕ) (buffer : ℕ → ℕ) (position : ℕ)
      → Piece file position buffer_size bytes
      → 0 < length bytes
      → length file < int_limit
      → Block file buffer_size
          (fill mode read pattern buffer_size bytes buffer)
          position
          (length bytes)
  fill-Block file bytes buffer position piece some_bytes small = record {
    byte_at = λ i lt. sym (piece.bytes_at i lt) ∙ fill-some bytes buffer i lt;
    fits = piece.at_most;
    full = piece.short;
    inside = piece.inside some_bytes;
    small = small;
  }
