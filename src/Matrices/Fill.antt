-- ===== src/Matrices/Fill.antt =====
-- Two nested loops of lab02/zad2/src/matrixes.c that write each cell of a matrix once.
use operating_systems_agh_la.Base.{
  ℕ, zero, suc, ◌+◌, ◌<◌, ◌≡◌, refl, sym, ◌≢◌, ◌⊎◌, inl, inr, true, false, Option, none, some, ◌==◌,
  ◌&&◌, arith, Bool-cases, ◌∙◌, subst, ap,
}
use operating_systems_agh_la.Matrices.{Ptr, Cells, ◌>>=◌, for_loop}

-- The code ends without a fault, and satisfies `P`.
abbrev pub Ends : {S : Type 0} → (S → Type 0) → Option S → Type 0
Ends P none = ⊥
Ends P (some c) = P c

pub Ends-bind :
    {S : Type 0} (P Q : S → Type 0) (o : Option S) (f : S → Option S)
    → Ends P o
    → ((c : S) → P c → Ends Q (f c))
    → Ends Q (o >>= f)
Ends-bind P Q none f e rest = elim e [ ]
Ends-bind P Q (some c) f e rest = rest c e

pub Ends-mono :
    {S : Type 0} (P Q : S → Type 0) (o : Option S) → Ends P o → ((c : S) → P c → Q c) → Ends Q o
Ends-mono P Q none e weaken = elim e [ ]
Ends-mono P Q (some c) e weaken = weaken c e

-- What each round keeps, holds behind the loop.
loop_from :
    {S : Type 0} (Inv : ℕ → S → Type 0) (body : ℕ → S → Option S) (n i last : ℕ) (c : S)
    → i + n ≡ last
    → ((k : ℕ) (d : S) → k < last → Inv k d → Ends (Inv (suc k)) (body k d))
    → Inv i c
    → Ends (Inv last) (for_loop n i body c)
unfolding for_loop
loop_from Inv body zero i last c e step holds =
    let same : i ≡ last = omega arith in subst (λ k. Inv k c) same holds
loop_from Inv body (suc n) i last c e step holds =
    Ends-bind (Inv (suc i)) (Inv last) (body i c) (for_loop n (suc i) body)
      (step i c (omega arith) holds)
      λ d kept. loop_from Inv body n (suc i) last d (omega arith) step kept

pub for_loop-Ends :
    {S : Type 0} (Inv : ℕ → S → Type 0) (body : ℕ → S → Option S) (n : ℕ) (c : S)
    → ((k : ℕ) (d : S) → k < n → Inv k d → Ends (Inv (suc k)) (body k d))
    → Inv 0 c
    → Ends (Inv n) (for_loop n 0 body c)
for_loop-Ends Inv body n c step holds = loop_from Inv body n 0 n c (omega arith) step holds

-- The place `i'`, `j'` is filled before `i`, `j`.
abbrev pub Before : (col i j i' j' : ℕ) → Type 0
Before col i j i' j' = ((i' < i) × (j' < col)) ⊎ ((i' ≡ i) × (j' < j))

-- The cell `l` of the row `q` is none of those filled before `i`, `j`.
abbrev pub Unwritten : (ℕ → Ptr) → (col i j : ℕ) → Ptr → ℕ → Type 0
Unwritten r col i j q l = (i' : ℕ) → Before col i j i' l → q ≢ r i'

module _ {D : Type 0} where
  -- The cell `j` of the row `p` got the value `v`, no other cell changed.
  pub record Wrote (p : Ptr) (j : ℕ) (v : D) (c d : Cells D) : Type 0 where
    pub value : d p j ≡ some v
    pub others : (q : Ptr) (l : ℕ) → ((q == p) && (l == j)) ≡ false → d q l ≡ c q l

  -- From the cells `c`, the places before `i`, `j` are filled with `v`.
  pub record Filled (r : ℕ → Ptr) (v : ℕ → ℕ → D) (col : ℕ) (c : Cells D) (i j : ℕ) (d : Cells D)
      : Type 0 where
    pub done : (i' j' : ℕ) → Before col i j i' j' → d (r i') j' ≡ some (v i' j')
    pub others : (q : Ptr) (l : ℕ) → Unwritten r col i j q l → d q l ≡ c q l

  module _ (r : ℕ → Ptr) (v : ℕ → ℕ → D) (row col : ℕ) (c : Cells D)
      (distinct : (i i' : ℕ) → i < row → i' < row → r i ≡ r i' → i ≡ i') where
    Filled-next :
        (i j : ℕ) (d e : Cells D)
        → i < row
        → Filled r v col c i j d
        → Wrote (r i) j (v i j) d e
        → Filled r v col c i (suc j) e
    Filled-next i j d e in_row f w = record {
      done = λ i' j' b. elim (Bool-cases ((r i' == r i) && (j' == j))) [
        | inl hit ↦
            new_value i' j'
              (distinct i' i (reached i' j' b) in_row (same_place (r i') (r i) j' j hit).0)
              (same_place (r i') (r i) j' j hit).1
        | inr miss ↦ w.others (r i') j' miss ∙ f.done i' j' (earlier i' j' b miss)
      ];
      others = λ q l u. w.others q l (apart q l u) ∙ f.others q l (λ i' b. u i' (later i' l b));
    }
      where
        same_place : (q p : Ptr) (l k : ℕ) → ((q == p) && (l == k)) ≡ true → (q ≡ p) × (l ≡ k)
        same_place q p l k hit = ground arith

        reached : (i' j' : ℕ) → Before col i (suc j) i' j' → i' < row
        reached i' j' b = ground arith

        new_value : (i' j' : ℕ) → i' ≡ i → j' ≡ j → e (r i') j' ≡ some (v i' j')
        new_value i' j' a b =
            subst (λ x. e (r x) j' ≡ some (v x j')) (sym a)
              (subst (λ y. e (r i) y ≡ some (v i y)) (sym b) w.value)

        earlier :
            (i' j' : ℕ)
            → Before col i (suc j) i' j'
            → ((r i' == r i) && (j' == j)) ≡ false
            → Before col i j i' j'
        earlier i' j' (inl b) miss = inl b
        earlier i' j' (inr (a, b)) miss = let same : r i' ≡ r i = ap r a in ground arith

        later : (i' l : ℕ) → Before col i j i' l → Before col i (suc j) i' l
        later i' l b = ground arith

        apart : (q : Ptr) (l : ℕ) → Unwritten r col i (suc j) q l → ((q == r i) && (l == j)) ≡ false
        apart q l u = elim (Bool-cases ((q == r i) && (l == j))) [
          | inl hit ↦ absurd (
              u i (inr (refl, omega (arith, (same_place q (r i) l j hit).1)))
                (same_place q (r i) l j hit).0)
          | inr miss ↦ miss
        ]

    Filled-row : (i : ℕ) (d : Cells D) → Filled r v col c i col d → Filled r v col c (suc i) 0 d
    Filled-row i d f = record {
      done = λ i' j' b. f.done i' j' (earlier i' j' b);
      others = λ q l u. f.others q l (λ i' b. u i' (later i' l b));
    }
      where
        earlier : (i' j' : ℕ) → Before col (suc i) 0 i' j' → Before col i col i' j'
        earlier i' j' b = ground arith

        later : (i' j' : ℕ) → Before col i col i' j' → Before col (suc i) 0 i' j'
        later i' j' b = ground arith

    -- The two loops fill all cells, if each round writes its cell.
    pub fill-Filled :
        (cell : ℕ → ℕ → Cells D → Option (Cells D))
        → ((i j : ℕ) (d : Cells D)
            → i < row
            → j < col
            → Filled r v col c i j d
            → Ends (Wrote (r i) j (v i j) d) (cell i j d))
        → Ends (Filled r v col c row 0) (for_loop row 0 (λ i. for_loop col 0 (cell i)) c)
    fill-Filled cell writes =
        for_loop-Ends (λ i. Filled r v col c i 0) (λ i. for_loop col 0 (cell i)) row c
          (λ i d in_row f.
            Ends-mono (Filled r v col c i col) (Filled r v col c (suc i) 0)
              (for_loop col 0 (cell i) d)
              (for_loop-Ends (Filled r v col c i) (cell i) col d
                (λ j e in_col g.
                  Ends-mono (Wrote (r i) j (v i j) e) (Filled r v col c i (suc j)) (cell i j e)
                    (writes i j e in_row in_col g) (λ k w. Filled-next i j e k in_row g w))
                f)
              (Filled-row i))
          record { done = λ i' j' b. absurd (nothing i' j' b); others = λ q l u. refl }
      where
        nothing : (i' j' : ℕ) → Before col 0 0 i' j' → ⊥
        nothing i' j' b = ground arith
