-- ===== src/Philosophers/Counted/Examples.antt =====
-- The philosophers of lab09/zad3b/philosophers.c at work: a dinner, and a run that ends with all five
-- threads blocked.
use mathlib.Core.Option.{some-injective}
use operating_systems_agh_la.Base.{
  ℕ, zero, suc, ◌≡◌, refl, subst, Option-cases, true, false, Option, none, some, List, [], ◌∷◌,
  ◌++◌, arith, ltb, inl, inr, Bool-cases, if◌then◌else◌,
}
use operating_systems_agh_la.Philosophers.Table.{size, lock}
use operating_systems_agh_la.Philosophers.Counted.Safety.{Reach-apart}
use operating_systems_agh_la.Philosophers.Counted.{
  State, act, at_first, lock_gate, take_fork, signal, Reach, start, move,
}

-- Threads in turn, each with the thread that its signal wakes.
unfoldable run : List (ℕ × Option ℕ) → State → Option State
run [] s = some s
run ((i, chosen) ∷ turns) s =
    if ltb i size
    then elim (act i chosen (s.pc i) s) [ none ↦ none | some t ↦ run turns t ]
    else none

run-Reach : (turns : List (ℕ × Option ℕ)) {s t : State} → Reach s → run turns s ≡ some t → Reach t
unfolding run
run-Reach [] {s} {t} r e = subst Reach (some-injective s t e) r
run-Reach ((i, chosen) ∷ turns) {s} {t} r e = elim (Bool-cases (ltb i size)) [
  | inl lt ↦ elim (Option-cases (act i chosen (s.pc i) s)) [
    | inl blocked ↦ let none_is : none ≡ some t = rw (lt, blocked) at e in ground arith
    | inr (u, went) ↦ run-Reach turns (move i chosen (ground arith) r went) (rw (lt, went) at e)
  ]
  | inr out ↦ let none_is : none ≡ some t = rw out at e in ground arith
]

abbrev turn : ℕ → ℕ × Option ℕ
turn i = (i, none)

turns : ℕ → ℕ → List (ℕ × Option ℕ)
turns zero i = []
turns (suc n) i = turn i ∷ turns n i

-- 0 to 3 come in, 4 waits; 0 eats, leaves and signals 4, and comes in again before 4 does.
abbrev schedule : List (ℕ × Option ℕ)
schedule =
    turns 4 0
    ++ turns 4 1
    ++ turns 4 2
    ++ turns 4 3
    ++ turns 2 4
    ++ turns 12 0
    ++ (0, some 4) ∷ turns 5 0
    ++ turns 3 4
    ++ turns 2 0
    ++ turns 2 1
    ++ turns 2 2
    ++ turns 2 3
    ++ turns 2 4

-- all five threads wait for a mutex
abbrev AllBlocked : State → Type 0
AllBlocked s =
    ((chosen : Option ℕ) → act 0 chosen (s.pc 0) s ≡ none)
    × ((chosen : Option ℕ) → act 1 chosen (s.pc 1) s ≡ none)
    × ((chosen : Option ℕ) → act 2 chosen (s.pc 2) s ≡ none)
    × ((chosen : Option ℕ) → act 3 chosen (s.pc 3) s ≡ none)
    × ((chosen : Option ℕ) → act 4 chosen (s.pc 4) s ≡ none)

reached : (s : State) × (run schedule at_first ≡ some s)
unfolding run turns act lock lock_gate take_fork signal
reached = (_, refl)

-- A reachable state in which all five threads are counted and wait for their right fork.
deadlock : (s : State) × Reach s × (s.count ≡ 5) × AllBlocked s
unfolding reached act lock take_fork
deadlock = (
  reached.0,
  run-Reach schedule start reached.1,
  refl,
  ((λ c. refl), (λ c. refl), (λ c. refl), (λ c. refl), λ c. refl),
)

-- philosopher 0 passes the gate, takes both forks and eats
dinner : (s : State) × Reach s × (s.table.who_is_eating 0 ≡ true)
unfolding run turns act lock lock_gate take_fork
dinner = (_, run-Reach (turns 9 0) start refl, refl)

Reach-apart_example : dinner.0.table.who_is_eating 1 ≡ false
Reach-apart_example = Reach-apart dinner.1 0 (omega arith) dinner.2
