-- ===== src/Finder/Scan.antt =====
-- `find_pattern` of lab09/zad1/finder.c inside one block.
use operating_systems_agh_la.Base.{
  ℕ, zero, suc, ◌+◌, ◌<◌, ◌≤◌, ◌≡◌, refl, sym, ap, subst, ◌∙◌, ◌≢◌, ◌⊎◌, inl, inr, true, false,
  some, List, [], ◌∷◌, length, get_elem?, arith, ◌==◌, ltb, Bool-cases,
}
use mathlib.Core.Option.{some-injective}
use operating_systems_agh_la.Finder.{Mode, ok, Reads, advance}

module _ (mode : Mode) (read : Reads) (pattern : List ℕ) (buffer_size : ℕ) where
  -- The loop that compares sign after sign from `i` on stops after `m` equal signs, and why.
  pub record Advanced (buffer : ℕ → ℕ) (read_check : ℕ) (cs : List ℕ) (i m : ℕ) : Type 0 where
    pub to : i + m ≤ read_check
    pub most : m ≤ length cs
    pub same : (j : ℕ) → j < m → get_elem? cs j ≡ some (buffer (i + j))
    pub stop :
        (m ≡ length cs)
        ⊎ ((i + m ≡ read_check) ⊎ ((c : ℕ) → get_elem? cs m ≡ some c → buffer (i + m) ≢ c))

  Advanced-next :
      (buffer : ℕ → ℕ) (read_check c : ℕ) (cs : List ℕ) (i m : ℕ)
      → buffer i ≡ c
      → Advanced buffer read_check cs (suc i) m
      → Advanced buffer read_check (c ∷ cs) i (suc m)
  Advanced-next buffer read_check c cs i m e a = record {
    to = omega (arith, a.to);
    most = omega (arith, a.most);
    same = same;
    stop = elim a.stop [
      | inl all ↦ inl (omega arith)
      | inr (inl end) ↦ inr (inl (omega arith))
      | inr (inr differs) ↦
          let step : suc i + m ≡ i + suc m = omega arith in
          inr (inr (λ d at. subst (λ v. buffer v ≢ d) step (differs d at)))
    ];
  }
    where
      same : (j : ℕ) → j < suc m → get_elem? (c ∷ cs) j ≡ some (buffer (i + j))
      same zero lt = let here : i ≡ i + 0 = omega arith in ap some (sym e ∙ ap buffer here)
      same (suc j) lt =
          let step : suc i + j ≡ i + suc j = omega arith in
          a.same j (omega arith) ∙ ap (λ v. some (buffer v)) step

  Advanced-none :
      (buffer : ℕ → ℕ) (read_check : ℕ) (cs : List ℕ) (i : ℕ)
      → i ≤ read_check
      → (0 ≡ length cs) ⊎ ((i ≡ read_check) ⊎ ((c : ℕ) → get_elem? cs 0 ≡ some c → buffer i ≢ c))
      → Advanced buffer read_check cs i 0
  Advanced-none buffer read_check cs i le why = record {
    to = omega arith;
    most = omega arith;
    same = λ j lt. absurd (omega arith);
    stop = elim why [
      | inl all ↦ inl all
      | inr (inl end) ↦ inr (inl (omega arith))
      | inr (inr differs) ↦
          let here : i ≡ i + 0 = omega arith in
          inr (inr (λ d at. subst (λ v. buffer v ≢ d) here (differs d at)))
    ];
  }

  pub advance-Advanced :
      (buffer : ℕ → ℕ) (read_check : ℕ) (cs : List ℕ) (i : ℕ)
      → i ≤ read_check
      → read_check ≤ buffer_size
      → (m : ℕ) × (advance mode read pattern buffer_size buffer read_check cs i ≡ ok (i + m))
        × Advanced buffer read_check cs i m
  unfolding advance
  advance-Advanced buffer read_check [] i le fits =
      let here : i ≡ i + 0 = omega arith in
      (0, ap ok here, Advanced-none buffer read_check [] i le (inl refl))
  advance-Advanced buffer read_check (c ∷ cs) i le fits = elim (Bool-cases (ltb i read_check)) [
    | inr end ↦
        let here : i ≡ i + 0 = omega arith in
        (
          0,
          rw end (ap ok here),
          Advanced-none buffer read_check (c ∷ cs) i le (inr (inl (ground arith))),
        )
    | inl more ↦
        let room : ltb i buffer_size ≡ true = ground arith in
        elim (Bool-cases (buffer i == c)) [
          | inr differs ↦
              let here : i ≡ i + 0 = omega arith in
              (
                0,
                rw (more, room, differs) (ap ok here),
                Advanced-none buffer read_check (c ∷ cs) i le
                    (inr (inr (λ d at. other d differs at))),
              )
          | inl same ↦
              let (m, e, a) = advance-Advanced buffer read_check cs (suc i) (ground arith) fits in
              let step : suc i + m ≡ i + suc m = omega arith in
              (
                suc m,
                rw (more, room, same) (e ∙ ap ok step),
                Advanced-next buffer read_check c cs i m (ground arith) a,
              )
        ]
  ]
    where
      other : (d : ℕ) → (buffer i == c) ≡ false → some c ≡ some d → buffer i ≢ d
      other d differs at = let same : c ≡ d = some-injective c d at in ground arith
