-- ===== src/FileCount/Extensions.antt =====
-- `matches` of lab04/zad3/count.c against the extensions that a text lists.
use operating_systems_agh_la.Base.{
  ℕ, zero, suc, ◌-◌, ◌≡◌, refl, sym, ap, subst, ◌∙◌, ◌⊎◌, inl, inr, Bool, true, false, Option, none,
  some, List, [], ◌∷◌, ◌++◌, length, take, drop, length-append, arith, ◌==◌, leb, Bool-cases,
  if◌then◌else◌,
}
use operating_systems_agh_la.Base.Slices.{append_nil, append_assoc, drop-length}
use operating_systems_agh_la.FileCount.{
  Text, same_text, ends_with, with_token, tokens_from, any_ends, matches_tokens, matches,
}

-- `e` stands at the end of `filename`.
abbrev pub EndsWith : (filename e : Text) → Type 0
EndsWith filename e = (front : Text) × (filename ≡ front ++ e)

-- One of the texts of a list has the property.
abbrev pub Among : (Text → Type 0) → List Text → Type 0
Among P [] = ⊥
Among P (e ∷ es) = P e ⊎ Among P es

-- A text before a list of pieces, as a part of the first one.
abbrev pub lead : Text → List Text → List Text
lead t [] = t ∷ []
lead t (p ∷ ps) = (t ++ p) ∷ ps

-- The pieces of a text between its colons.
abbrev pub pieces : Text → List Text
pieces [] = [] ∷ []
pieces (x ∷ xs) = if x == 58 then [] ∷ pieces xs else lead (x ∷ []) (pieces xs)

abbrev pub not_empty : List Text → List Text
not_empty [] = []
not_empty ([] ∷ ps) = not_empty ps
not_empty ((x ∷ xs) ∷ ps) = (x ∷ xs) ∷ not_empty ps

-- A path that ends with an extension of the list; a text of colons only is its own extension.
abbrev pub EndsWithOne : (filename exts : Text) → List Text → Type 0
EndsWithOne filename exts [] = EndsWith filename exts
EndsWithOne filename exts (e ∷ es) = Among (EndsWith filename) (e ∷ es)

-- The files that are to be counted: those with one of the extensions between colons, or every file
-- when none are set.
abbrev pub IsCounted : (extensions : Option Text) → (filename : Text) → Type 0
IsCounted none filename = Unit
IsCounted (some []) filename = Unit
IsCounted (some (x ∷ xs)) filename = EndsWithOne filename (x ∷ xs) (not_empty (pieces (x ∷ xs)))

same_text-same : (xs ys : Text) → same_text xs ys ≡ true → xs ≡ ys
same_text-same [] [] e = refl
same_text-same [] (y ∷ ys) e = cc
same_text-same (x ∷ xs) [] e = cc
same_text-same (x ∷ xs) (y ∷ ys) e =
    let head : x ≡ y = ground (arith, e) in
    let tail : xs ≡ ys = same_text-same xs ys (ground (arith, e)) in cc

same_text_self : (xs : Text) → same_text xs xs ≡ true
same_text_self [] = refl
same_text_self (x ∷ xs) = ground (arith, same_text_self xs)

front-back : (n : ℕ) (xs : Text) → xs ≡ take n xs ++ drop n xs
front-back zero xs = refl
front-back (suc n) [] = refl
front-back (suc n) (x ∷ xs) = ap (λ zs. x ∷ zs) (front-back n xs)

ends_with-EndsWith : (filename e : Text) → ends_with filename e ≡ true → EndsWith filename e
ends_with-EndsWith filename e found =
    let n = length filename - length e in
    let back : same_text e (drop n filename) ≡ true = ground (arith, found) in
    (
      take n filename,
      front-back n filename
          ∙ ap (λ zs. take n filename ++ zs) (sym (same_text-same e (drop n filename) back)),
    )

EndsWith-ends_with : (filename e : Text) → EndsWith filename e → ends_with filename e ≡ true
EndsWith-ends_with filename e (front, at) = subst (λ f. ends_with f e ≡ true) (sym at) whole
  where
    whole : ends_with (front ++ e) e ≡ true
    whole =
        let n : length (front ++ e) - length e ≡ length front =
          omega (arith, length-append front e) in
        let fits : leb (length e) (length (front ++ e)) ≡ true =
          ground (arith, length-append front e) in
        rw (fits, n, drop-length front e, same_text_self e) refl

any_ends-Among :
    (filename : Text) (es : List Text) → any_ends filename es ≡ true → Among (EndsWith filename) es
any_ends-Among filename [] found = cc
any_ends-Among filename (e ∷ es) found = elim (Bool-cases (ends_with filename e)) [
  | inl here ↦ inl (ends_with-EndsWith filename e here)
  | inr not_here ↦ inr (any_ends-Among filename es (rw not_here at found))
]

Among-any_ends :
    (filename : Text) (es : List Text) → Among (EndsWith filename) es → any_ends filename es ≡ true
Among-any_ends filename [] some_end = elim some_end [ ]
Among-any_ends filename (e ∷ es) (inl here) = rw (EndsWith-ends_with filename e here) refl
Among-any_ends filename (e ∷ es) (inr later) = ground (arith, Among-any_ends filename es later)

not_empty-with_token :
    (t : Text) (ps : List Text) → not_empty (t ∷ ps) ≡ with_token t (not_empty ps)
not_empty-with_token [] ps = refl
not_empty-with_token (x ∷ xs) ps = refl

lead-lead :
    (t : Text) (x : ℕ) (ps : List Text) → lead (t ++ (x ∷ [])) ps ≡ lead t (lead (x ∷ []) ps)
lead-lead t x [] = refl
lead-lead t x (p ∷ ps) = ap (λ q. q ∷ ps) (append_assoc t (x ∷ []) p)

lead_none : (ps : List Text) → not_empty (lead [] ps) ≡ not_empty ps
lead_none [] = refl
lead_none (p ∷ ps) = refl

-- `strtok` finds the pieces that are not empty.
tokens_from-pieces : (t xs : Text) → tokens_from t xs ≡ not_empty (lead t (pieces xs))
tokens_from-pieces t [] =
    sym (not_empty-with_token (t ++ []) [] ∙ ap (λ u. with_token u []) (append_nil t))
tokens_from-pieces t (x ∷ xs) = elim (Bool-cases (x == 58)) [
  | inl colon ↦ rw colon (
      ap (with_token t) (tokens_from-pieces [] xs ∙ lead_none (pieces xs))
      ∙ sym (
          not_empty-with_token (t ++ []) (pieces xs)
          ∙ ap (λ u. with_token u (not_empty (pieces xs))) (append_nil t)))
  | inr sign ↦
      rw sign (tokens_from-pieces (t ++ (x ∷ [])) xs ∙ ap not_empty (lead-lead t x (pieces xs)))
]

tokens : (xs : Text) → tokens_from [] xs ≡ not_empty (pieces xs)
tokens xs = tokens_from-pieces [] xs ∙ lead_none (pieces xs)

pub matches-IsCounted :
    (extensions : Option Text) (filename : Text)
    → matches extensions filename ≡ true
    → IsCounted extensions filename
matches-IsCounted none filename found = tt
matches-IsCounted (some []) filename found = tt
matches-IsCounted (some (x ∷ xs)) filename found =
    subst (EndsWithOne filename (x ∷ xs)) (tokens (x ∷ xs))
      (ends_with_one (tokens_from [] (x ∷ xs)) found)
  where
    ends_with_one :
        (es : List Text)
        → matches_tokens (x ∷ xs) filename es ≡ true
        → EndsWithOne filename (x ∷ xs) es
    ends_with_one [] e = ends_with-EndsWith filename (x ∷ xs) e
    ends_with_one (t ∷ ts) e = any_ends-Among filename (t ∷ ts) e

pub IsCounted-matches :
    (extensions : Option Text) (filename : Text)
    → IsCounted extensions filename
    → matches extensions filename ≡ true
IsCounted-matches none filename counted = refl
IsCounted-matches (some []) filename counted = refl
IsCounted-matches (some (x ∷ xs)) filename counted =
    ends_with_one (tokens_from [] (x ∷ xs))
      (subst (EndsWithOne filename (x ∷ xs)) (sym (tokens (x ∷ xs))) counted)
  where
    ends_with_one :
        (es : List Text)
        → EndsWithOne filename (x ∷ xs) es
        → matches_tokens (x ∷ xs) filename es ≡ true
    ends_with_one [] e = EndsWith-ends_with filename (x ∷ xs) e
    ends_with_one (t ∷ ts) e = Among-any_ends filename (t ∷ ts) e

pub not_counted :
    (extensions : Option Text) (filename : Text)
    → matches extensions filename ≡ false
    → IsCounted extensions filename
    → ⊥
not_counted extensions filename e counted =
    let found = IsCounted-matches extensions filename counted in cc

-- Whether a file is to be counted.
abbrev pub is_counted :
    (extensions : Option Text) (filename : Text) → Dec (IsCounted extensions filename)
is_counted extensions filename = decided (matches extensions filename) refl
  where
    decided : (b : Bool) → matches extensions filename ≡ b → Dec (IsCounted extensions filename)
    decided true e = yes (matches-IsCounted extensions filename e)
    decided false e = no (not_counted extensions filename e)
