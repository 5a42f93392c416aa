-- ===== src/Finder/Within.antt =====
-- lab09/zad1/finder.c: what a `read` gives of a file, and where a pattern occurs.
use operating_systems_agh_la.Base.{
  ℕ, ◌+◌, ◌<◌, ◌≤◌, ◌≡◌, ◌∙◌, ◌⊎◌, inl, inr, some, List, [], ◌∷◌, ◌++◌, length, get_elem?, take,
  drop, arith,
}
use operating_systems_agh_la.Base.Slices.{
  length-drop, get_elem?-drop, length-take_le, length-take_short, length-take_all, get_elem?-take,
}
use operating_systems_agh_la.Finder.{Reads}

-- `read` of a regular file: all that is there, up to the number of bytes asked for.
abbrev pub pread : List ℕ → Reads
pread file place quantity = some (take quantity (drop place file))

abbrev pub ReadsFile : Reads → List ℕ → Type 0
ReadsFile read file = (place quantity : ℕ) → read place quantity ≡ pread file place quantity

-- The pattern stands at `p`, as far as the file goes up to `last`.
abbrev pub OccursTo : (file pattern : List ℕ) → (p last : ℕ) → Type 0
OccursTo file pattern p last =
    (j c : ℕ) → get_elem? pattern j ≡ some c → p + j < last → get_elem? file (p + j) ≡ some c

-- The pattern stands at `p`.
abbrev pub Occurs : (file pattern : List ℕ) → ℕ → Type 0
Occurs file pattern p = (j c : ℕ) → get_elem? pattern j ≡ some c → get_elem? file (p + j) ≡ some c

abbrev pub Every : (ℕ → Type 0) → List ℕ → Type 0
Every P [] = Unit
Every P (x ∷ xs) = P x × Every P xs

abbrev pub IsIn : ℕ → List ℕ → Type 0
IsIn p [] = ⊥
IsIn p (x ∷ xs) = (p ≡ x) ⊎ IsIn p xs

pub Every-append : (P : ℕ → Type 0) (xs ys : List ℕ) → Every P xs → Every P ys → Every P (xs ++ ys)
Every-append P [] ys a b = b
Every-append P (x ∷ xs) ys a b = (a.0, Every-append P xs ys a.1 b)

pub IsIn-left : (p : ℕ) (xs ys : List ℕ) → IsIn p xs → IsIn p (xs ++ ys)
IsIn-left p [] ys i = elim i [ ]
IsIn-left p (x ∷ xs) ys (inl e) = inl e
IsIn-left p (x ∷ xs) ys (inr i) = inr (IsIn-left p xs ys i)

pub IsIn-right : (p : ℕ) (xs ys : List ℕ) → IsIn p ys → IsIn p (xs ++ ys)
IsIn-right p [] ys i = i
IsIn-right p (x ∷ xs) ys i = inr (IsIn-right p xs ys i)

-- `bytes` are what the file has at `place`, `quantity` of them if it has that many.
pub record Piece (file : List ℕ) (place quantity : ℕ) (bytes : List ℕ) : Type 0 where
  pub at_most : length bytes ≤ quantity
  pub inside : 0 < length bytes → place + length bytes ≤ length file
  pub short : length bytes < quantity → length file ≤ place + length bytes
  pub bytes_at : (i : ℕ) → i < length bytes → get_elem? bytes i ≡ get_elem? file (place + i)

pub take-Piece :
    (file : List ℕ) (place quantity : ℕ)
    → Piece file place quantity (take quantity (drop place file))
take-Piece file place quantity = record {
  at_most = length-take_le quantity (drop place file);
  inside = λ lt. omega (arith, length-take_all quantity (drop place file), length-drop place file);
  short =
      λ lt. omega (arith, length-take_short quantity (drop place file) lt, length-drop place file);
  bytes_at = λ i lt. get_elem?-take quantity (drop place file) i lt ∙ get_elem?-drop place file i;
}
