-- ===== src/Base/Slices.antt =====
-- Parts of lists: a slice, and a list with a slice overwritten.
use Prim.Native.Nat.{ℕ, zero, suc, ◌+◌, ◌-◌, ◌<◌, ◌≤◌}
use mathlib.Core.Path.{◌≡◌, refl, sym, ap, ◌∙◌}
use mathlib.Core.Logic.{◌⊎◌, inl, inr}
use mathlib.Core.List.{List, [], ◌∷◌, ◌++◌}
use mathlib.Core.Option.{Option, none, some}
use native.Mathlib.Omega.{arith}
use operating_systems_agh_la.Base.Tests.{ltb, Bool-cases, if◌then◌else◌}
use operating_systems_agh_la.Base.Lists.{length, get_elem?, take, drop, length-append}

module _ {ℓ} {A : Type ℓ} where
  pub length-drop : (n : ℕ) (xs : List A) → length (drop n xs) ≡ length xs - n
  length-drop zero xs = omega arith
  length-drop (suc n) [] = omega arith
  length-drop (suc n) (x ∷ xs) = omega (arith, length-drop n xs)

  pub get_elem?-drop :
      (n : ℕ) (xs : List A) (i : ℕ) → get_elem? (drop n xs) i ≡ get_elem? xs (n + i)
  get_elem?-drop zero xs i = let same : i ≡ 0 + i = omega arith in ap (get_elem? xs) same
  get_elem?-drop (suc n) [] i = refl
  get_elem?-drop (suc n) (x ∷ xs) i =
      let same : suc (n + i) ≡ suc n + i = omega arith in
      get_elem?-drop n xs i ∙ ap (get_elem? (x ∷ xs)) same

  pub length-take_le : (n : ℕ) (xs : List A) → length (take n xs) ≤ n
  length-take_le zero xs = omega arith
  length-take_le (suc n) [] = omega arith
  length-take_le (suc n) (x ∷ xs) = omega (arith, length-take_le n xs)

  pub length-take_short :
      (n : ℕ) (xs : List A) → length (take n xs) < n → length (take n xs) ≡ length xs
  length-take_short zero xs lt = absurd (omega arith)
  length-take_short (suc n) [] lt = refl
  length-take_short (suc n) (x ∷ xs) lt = omega (arith, length-take_short n xs (omega arith))

  pub length-take_all : (n : ℕ) (xs : List A) → length (take n xs) ≤ length xs
  length-take_all zero xs = omega arith
  length-take_all (suc n) [] = omega arith
  length-take_all (suc n) (x ∷ xs) = omega (arith, length-take_all n xs)

  pub get_elem?-take :
      (n : ℕ) (xs : List A) (i : ℕ)
      → i < length (take n xs)
      → get_elem? (take n xs) i ≡ get_elem? xs i
  get_elem?-take zero xs i lt = absurd (omega arith)
  get_elem?-take (suc n) [] i lt = refl
  get_elem?-take (suc n) (x ∷ xs) zero lt = refl
  get_elem?-take (suc n) (x ∷ xs) (suc i) lt = get_elem?-take n xs i (omega arith)

  get_elem?-take_if :
      (n : ℕ) (xs : List A) (i : ℕ)
      → get_elem? (take n xs) i ≡ (if ltb i n then get_elem? xs i else none)
  get_elem?-take_if zero xs i = ground arith
  get_elem?-take_if (suc n) [] i = ground arith
  get_elem?-take_if (suc n) (x ∷ xs) zero = ground arith
  get_elem?-take_if (suc n) (x ∷ xs) (suc i) = ground (arith, get_elem?-take_if n xs i)

  get_elem?-append :
      (xs ys : List A) (i : ℕ)
      → get_elem? (xs ++ ys) i
        ≡ (if ltb i (length xs) then get_elem? xs i else get_elem? ys (i - length xs))
  get_elem?-append [] ys i =
      let same : i - 0 ≡ i = omega arith in ground (arith, ap (get_elem? ys) same)
  get_elem?-append (x ∷ xs) ys zero = ground arith
  get_elem?-append (x ∷ xs) ys (suc i) = ground (arith, get_elem?-append xs ys i)

  get_elem?-past : (xs : List A) (i : ℕ) → length xs ≤ i → get_elem? xs i ≡ none
  get_elem?-past [] i le = refl
  get_elem?-past (x ∷ xs) zero le = absurd (omega arith)
  get_elem?-past (x ∷ xs) (suc i) le = get_elem?-past xs i (omega arith)

  -- two lists with the same elements
  pub get_elem?_ext : (xs ys : List A) → ((i : ℕ) → get_elem? xs i ≡ get_elem? ys i) → xs ≡ ys
  get_elem?_ext [] [] same = refl
  get_elem?_ext [] (y ∷ ys) same = cc (same 0)
  get_elem?_ext (x ∷ xs) [] same = cc (same 0)
  get_elem?_ext (x ∷ xs) (y ∷ ys) same =
      let head : some x ≡ some y = same 0 in
      let tail : xs ≡ ys = get_elem?_ext xs ys (λ i. same (suc i)) in cc

  -- `n` elements from `p` on
  abbrev pub slice : ℕ → ℕ → List A → List A
  slice p n xs = take n (drop p xs)

  -- `ys` written over the elements from `p` on
  abbrev pub splice : ℕ → List A → List A → List A
  splice p ys xs = take p xs ++ (ys ++ drop (p + length ys) xs)

  pub get_elem?-slice :
      (p n : ℕ) (xs : List A) (i : ℕ)
      → get_elem? (slice p n xs) i ≡ (if ltb i n then get_elem? xs (p + i) else none)
  get_elem?-slice p n xs i = rw (get_elem?-take_if n (drop p xs) i, get_elem?-drop p xs i) refl

  length-take_min : (n : ℕ) (xs : List A) → n ≤ length xs → length (take n xs) ≡ n
  length-take_min zero xs le = refl
  length-take_min (suc n) [] le = omega arith
  length-take_min (suc n) (x ∷ xs) le = omega (arith, length-take_min n xs (omega arith))

  pub length-splice :
      (p : ℕ) (ys xs : List A) → p + length ys ≤ length xs → length (splice p ys xs) ≡ length xs
  length-splice p ys xs fits = omega (
    arith,
    length-append (take p xs) (ys ++ drop (p + length ys) xs),
    length-append ys (drop (p + length ys) xs),
    length-take_min p xs (omega arith),
    length-drop (p + length ys) xs,
  )

module _ {A : Type 0} where
  pub get_elem?-splice :
      (p : ℕ) (ys xs : List A) (i : ℕ)
      → p + length ys ≤ length xs
      → get_elem? (splice p ys xs) i ≡ (
          if ltb i p
          then get_elem? xs i
          else if ltb i (p + length ys)
          then get_elem? ys (i - p)
          else get_elem? xs i)
  get_elem?-splice p ys xs i fits =
      let e1 = get_elem?-append (take p xs) (ys ++ drop (p + length ys) xs) i in
      let e2 = get_elem?-append ys (drop (p + length ys) xs) (i - p) in
      let e3 = get_elem?-drop (p + length ys) xs (i - p - length ys) in
      rw (e1, length-take_min p xs (omega arith), get_elem?-take_if p xs i, e2, e3)
        (behind (get_elem? xs) (get_elem? ys (i - p)) p (length ys) i)
    where
      behind :
          (f : ℕ → Option A) (y : Option A) (p n i : ℕ)
          → (if ltb i p
              then (if ltb i p then f i else none)
              else if ltb (i - p) n
              then y
              else f (p + n + (i - p - n)))
            ≡ (if ltb i p then f i else if ltb i (p + n) then y else f i)
      behind f y p n i = elim (Bool-cases (ltb i (p + n))) [
        | inl before ↦ ground arith
        | inr after ↦ let same : p + n + (i - p - n) ≡ i = ground arith in rw same (ground arith)
      ]

  -- what was written is read again
  pub slice-splice_self :
      (p : ℕ) (ys xs : List A)
      → p + length ys ≤ length xs
      → slice p (length ys) (splice p ys xs) ≡ ys
  slice-splice_self p ys xs fits = get_elem?_ext _ ys λ i.
      rw (get_elem?-slice p (length ys) (splice p ys xs) i, get_elem?-splice p ys xs (p + i) fits)
        (elim (Bool-cases (ltb i (length ys))) [
          | inl within ↦
              let same : p + i - p ≡ i = omega arith in ground (arith, ap (get_elem? ys) same)
          | inr past ↦ ground (arith, get_elem?-past ys i)
        ])

  -- what stands elsewhere stays
  pub slice-splice_apart :
      (q n p : ℕ) (ys xs : List A)
      → p + length ys ≤ length xs
      → (q + n ≤ p) ⊎ (p + length ys ≤ q)
      → slice q n (splice p ys xs) ≡ slice q n xs
  slice-splice_apart q n p ys xs fits apart = get_elem?_ext _ _ λ i.
      rw
        (
          get_elem?-slice q n (splice p ys xs) i,
          get_elem?-slice q n xs i,
          get_elem?-splice p ys xs (q + i) fits,
        )
        (ground arith)

  pub length-slice : (p n : ℕ) (xs : List A) → p + n ≤ length xs → length (slice p n xs) ≡ n
  length-slice p n xs fits = length-take_min n (drop p xs) (omega (arith, length-drop p xs))

module _ {ℓ} {A : Type ℓ} where
  pub append_nil : (xs : List A) → xs ++ [] ≡ xs
  append_nil [] = refl
  append_nil (x ∷ xs) = ap (λ zs. x ∷ zs) (append_nil xs)

  pub append_assoc : (xs ys zs : List A) → (xs ++ ys) ++ zs ≡ xs ++ (ys ++ zs)
  append_assoc [] ys zs = refl
  append_assoc (x ∷ xs) ys zs = ap (λ rest. x ∷ rest) (append_assoc xs ys zs)

  take_all : (xs : List A) → take (length xs) xs ≡ xs
  take_all [] = refl
  take_all (x ∷ xs) = ap (λ zs. x ∷ zs) (take_all xs)

  pub drop_past : (n : ℕ) (xs : List A) → length xs ≤ n → drop n xs ≡ []
  drop_past zero [] le = refl
  drop_past (suc n) [] le = refl
  drop_past zero (x ∷ xs) le = absurd (omega arith)
  drop_past (suc n) (x ∷ xs) le = drop_past n xs (omega arith)

  -- a write behind the last element
  pub splice_end : (xs ys : List A) → splice (length xs) ys xs ≡ xs ++ ys
  splice_end xs ys =
      rw (take_all xs, drop_past (length xs + length ys) xs (omega arith))
        (ap (λ zs. xs ++ zs) (append_nil ys))

  drop-drop : (p q : ℕ) (xs : List A) → drop (p + q) xs ≡ drop q (drop p xs)
  drop-drop zero q xs = let same : 0 + q ≡ q = omega arith in ap (λ n. drop n xs) same
  drop-drop (suc p) zero [] = drop_past (suc p + 0) [] (omega arith)
  drop-drop (suc p) (suc q) [] = drop_past (suc p + suc q) [] (omega arith)
  drop-drop (suc p) q (x ∷ xs) =
      let next : suc p + q ≡ suc (p + q) = omega arith in
      ap (λ n. drop n (x ∷ xs)) next ∙ drop-drop p q xs

  take-drop : (n : ℕ) (xs : List A) → xs ≡ take n xs ++ drop (length (take n xs)) xs
  take-drop zero xs = refl
  take-drop (suc n) [] = refl
  take-drop (suc n) (x ∷ xs) = ap (λ zs. x ∷ zs) (take-drop n xs)

  -- what is left, in two pieces
  pub drop-slice :
      (p n : ℕ) (xs : List A) → drop p xs ≡ slice p n xs ++ drop (p + length (slice p n xs)) xs
  drop-slice p n xs =
      take-drop n (drop p xs)
      ∙ ap (λ zs. slice p n xs ++ zs) (sym (drop-drop p (length (slice p n xs)) xs))

  -- slices of the two parts of a list
  pub slice-append_left :
      (p n : ℕ) (xs ys : List A) → p + n ≤ length xs → slice p n (xs ++ ys) ≡ slice p n xs
  slice-append_left zero zero xs ys fits = refl
  slice-append_left zero (suc n) [] ys fits = absurd (omega arith)
  slice-append_left zero (suc n) (x ∷ xs) ys fits =
      ap (λ zs. x ∷ zs) (slice-append_left zero n xs ys (omega arith))
  slice-append_left (suc p) n [] ys fits = absurd (omega arith)
  slice-append_left (suc p) n (x ∷ xs) ys fits = slice-append_left p n xs ys (omega arith)

  pub drop-length : (xs ys : List A) → drop (length xs) (xs ++ ys) ≡ ys
  drop-length [] ys = refl
  drop-length (x ∷ xs) ys = drop-length xs ys

  pub slice-append_right :
      (p n : ℕ) (xs ys : List A) → slice (length xs + p) n (xs ++ ys) ≡ slice p n ys
  slice-append_right p n xs ys =
      ap (take n) (drop-drop (length xs) p (xs ++ ys) ∙ ap (drop p) (drop-length xs ys))

  pub slice_all : (xs : List A) → slice 0 (length xs) xs ≡ xs
  slice_all [] = refl
  slice_all (x ∷ xs) = ap (λ zs. x ∷ zs) (slice_all xs)
