-- ===== src/Finder/Reports.antt =====
-- lab09/zad1/finder.c: what a thread reports in one block.
use operating_systems_agh_la.Base.{
  ℕ, zero, suc, ◌+◌, ◌<◌, ◌≤◌, ◌≡◌, refl, sym, subst, inl, inr, Bool, true, false, List, [], ◌++◌,
  length, arith, ◌==◌, ltb, Bool-cases, if◌then◌else◌,
}
use operating_systems_agh_la.Finder.{
  Mode, detached, Outcome, ok, out_of_bounds, overflow, out_of_fuel, ◌>>=◌, Reads, Step, examine,
  in_int, scan_block,
}
use operating_systems_agh_la.Finder.Within.{
  ReadsFile, OccursTo, Occurs, Every, IsIn, Every-append, IsIn-left, IsIn-right,
}
use operating_systems_agh_la.Finder.Scan.{Advanced, advance-Advanced}
use operating_systems_agh_la.Finder.Examine.{Block, Examined, in_int-true, examine-Examined}

-- The code ends with no access behind an array and no overflow, and its result satisfies `P`.
abbrev pub Ends : {A : Type 0} → (A → Type 0) → Outcome A → Type 0
Ends P (ok x) = P x
Ends P out_of_bounds = ⊥
Ends P overflow = ⊥
Ends P out_of_fuel = ⊥

pub Ends-weaken :
    {A : Type 0} (P Q : A → Type 0) (o : Outcome A) → Ends P o → ((x : A) → P x → Q x) → Ends Q o
Ends-weaken P Q (ok x) e f = f x e
Ends-weaken P Q out_of_bounds e f = elim e [ ]
Ends-weaken P Q overflow e f = elim e [ ]
Ends-weaken P Q out_of_fuel e f = elim e [ ]

pub Ends-bind :
    {A B : Type 0} (P : A → Type 0) (Q : B → Type 0) (o : Outcome A) (f : A → Outcome B)
    → Ends P o
    → ((x : A) → P x → Ends Q (f x))
    → Ends Q (o >>= f)
Ends-bind P Q (ok x) f e rest = rest x e
Ends-bind P Q out_of_bounds f e rest = elim e [ ]
Ends-bind P Q overflow f e rest = elim e [ ]
Ends-bind P Q out_of_fuel f e rest = elim e [ ]

pub Ends-if :
    {A : Type 0} (P : A → Type 0) (b : Bool) (x y : Outcome A)
    → (b ≡ true → Ends P x)
    → (b ≡ false → Ends P y)
    → Ends P (if b then x else y)
Ends-if P true x y f g = f refl
Ends-if P false x y f g = g refl

module _ (mode : Mode) (read : Reads) (pattern : List ℕ) (buffer_size : ℕ) (file : List ℕ)
    (reads : ReadsFile read file) (some_pattern : 0 < length pattern)
    (short_pattern : length pattern ≤ buffer_size) where
  abbrev pub IsSound : ℕ → Type 0
  IsSound p = OccursTo file pattern p (length file)

  module _ (buffer : ℕ → ℕ) (position size : ℕ)
      (bl : Block file buffer_size buffer position size) where
    -- What the loop reports from `k` on.
    pub record Scanned (k read_check : ℕ) (r : List ℕ × Bool) : Type 0 where
      pub sound : Every IsSound r.0
      pub complete :
          mode ≡ detached
          → read_check ≡ size
          → (k' : ℕ) → k ≤ k'
          → k' + length pattern ≤ size
          → Occurs file pattern (position + k')
          → IsIn (position + k') r.0
      pub ends : mode ≡ detached → r.1 ≡ false → length file ≤ position + size

    abbrev Exam : (k read_check : ℕ) → Step → Type 0
    Exam =
        Examined mode read pattern buffer_size file reads some_pattern short_pattern buffer position
          size bl

    Scanned-none : (k read_check : ℕ) → read_check ≤ k → Scanned k read_check ([], true)
    Scanned-none k read_check le = record {
      sound = tt;
      complete = λ d whole k' from fits occurs. absurd (omega arith);
      ends = λ d dead. cc;
    }

    Scanned-dead :
        (k read_check : ℕ) (s : Step)
        → k < read_check
        → Exam k read_check s
        → s.alive ≡ false
        → Scanned k read_check (s.found, false)
    Scanned-dead k read_check s lt ex dead = record {
      sound = ex.sound;
      complete = λ d whole k' from fits occurs. absurd (omega (arith, ex.ends d dead));
      ends = λ d _. (ex.ends d dead).0;
    }

    Scanned-next :
        (k read_check : ℕ) (s : Step) (more : List ℕ) (alive : Bool)
        → Exam k read_check s
        → Scanned (suc k) s.read_check (more, alive)
        → Scanned k read_check (s.found ++ more, alive)
    Scanned-next k read_check s more alive ex sc = record {
      sound = Every-append IsSound s.found more ex.sound sc.sound;
      complete = λ d whole k' from fits occurs. elim (Bool-cases (k == k')) [
        | inl here ↦
            let same : k ≡ k' = ground arith in
            IsIn-left (position + k') s.found more (
              subst (λ v. IsIn (position + v) s.found) same
                (ex.complete whole (omega arith)
                  (subst (λ v. Occurs file pattern (position + v)) (sym same) occurs)))
        | inr later ↦
            let further : suc k ≤ k' = ground arith in
            IsIn-right (position + k') s.found more (elim (ex.kept whole) [
              | inl kept ↦ sc.complete d kept k' further fits occurs
              | inr past ↦ absurd (omega arith)
            ])
      ];
      ends = sc.ends;
    }

    -- The body of the loop, behind the comparison.
    tests : (n k read_check i : ℕ) → Outcome (List ℕ × Bool)
    tests n k read_check i =
        let step = examine mode read pattern buffer_size position k i read_check in
        if in_int mode read pattern buffer_size position k i read_check
        then (if step.alive
            then (do
              (more, alive) ←
                  scan_block mode read pattern buffer_size n buffer position (suc k) step.read_check
              ok (step.found ++ more, alive))
            else ok (step.found, false))
        else overflow

    tests-Scanned :
        (n k read_check m : ℕ)
        → k < read_check
        → read_check ≤ size
        → Advanced mode read pattern buffer_size buffer read_check pattern k m
        → ((r : ℕ)
            → r ≤ size
            → Ends
                (Scanned (suc k) r)
                (scan_block mode read pattern buffer_size n buffer position (suc k) r))
        → Ends (Scanned k read_check) (tests n k read_check (k + m))
    unfolding tests
    tests-Scanned n k read_check m lt le ad next =
        let s = examine mode read pattern buffer_size position k (k + m) read_check in
        let ex : Exam k read_check s =
          examine-Examined mode read pattern buffer_size file reads some_pattern short_pattern
            buffer position size bl k m read_check lt le ad in
        let fits : in_int mode read pattern buffer_size position k (k + m) read_check ≡ true =
          in_int-true mode read pattern buffer_size file reads some_pattern short_pattern buffer
            position size bl k m read_check lt le ad in
        rw fits (
          Ends-if (Scanned k read_check) s.alive _ _
            (λ alive.
              Ends-bind (Scanned (suc k) s.read_check) (Scanned k read_check)
                (scan_block mode read pattern buffer_size n buffer position (suc k) s.read_check) _
                (next s.read_check ex.bound)
                λ (more, a) sc. Scanned-next k read_check s more a ex sc)
            (λ dead. Scanned-dead k read_check s lt ex dead))

    pub scan_block-Scanned :
        (n k read_check : ℕ)
        → size < n + k
        → k ≤ size
        → read_check ≤ size
        → Ends
            (Scanned k read_check)
            (scan_block mode read pattern buffer_size n buffer position k read_check)
    unfolding scan_block tests
    scan_block-Scanned zero k read_check fuel inside le = absurd (omega arith)
    scan_block-Scanned (suc n) k read_check fuel inside le =
        Ends-if (Scanned k read_check) (ltb k read_check) _ _
          (λ lt.
            let here : k < read_check = ground arith in
            let (m, e, ad) =
              advance-Advanced mode read pattern buffer_size buffer read_check pattern k
                (omega arith) (omega (arith, bl.fits)) in
            subst (λ o. Ends (Scanned k read_check) (o >>= tests n k read_check)) (sym e)
              (tests-Scanned n k read_check m here le ad
                (λ r bound. scan_block-Scanned n (suc k) r (omega arith) (omega arith) bound)))
          (λ ge. Scanned-none k read_check (ground arith))
