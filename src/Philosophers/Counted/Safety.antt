-- ===== src/Philosophers/Counted/Safety.antt =====
-- lab09/zad3b/philosophers.c: the forks, who eats, and the count.
use mathlib.Core.Option.{some-injective}
use operating_systems_agh_la.Base.{
  ℕ, ◌+◌, ◌<◌, ◌≡◌, refl, subst, ◌≢◌, Bool, true, false, Option, none, some, arith, ◌==◌, ◌||◌, ltb,
  inl, inr, Bool-cases, Option-cases,
}
use operating_systems_agh_la.Base.Maps.{update}
use operating_systems_agh_la.Philosophers.Table.{Table, size, left_fork, right_fork, lock}
use operating_systems_agh_la.Philosophers.Ownership
use operating_systems_agh_la.Philosophers.Ownership.{IsOwned}
use operating_systems_agh_la.Philosophers.Counted.{
  Pc, outside, gated, asleep, woken, passed, counted, admitted, left_locked, left_taken,
  right_locked, right_taken, eating, sated, left_cleared, left_down, right_cleared, right_down,
  leaving, uncounted, signalled, State, go, lock_gate, take_fork, sleeps, someone_sleeps, signal,
  act, at_first, Reach, start, move, spurious,
}

-- the forks that thread `i` has locked at a place
abbrev pub holds : ℕ → Pc → ℕ → Bool
holds i left_locked f = f == left_fork i
holds i left_taken f = f == left_fork i
holds i right_locked f = (f == left_fork i) || (f == right_fork i)
holds i right_taken f = (f == left_fork i) || (f == right_fork i)
holds i eating f = (f == left_fork i) || (f == right_fork i)
holds i sated f = (f == left_fork i) || (f == right_fork i)
holds i left_cleared f = (f == left_fork i) || (f == right_fork i)
holds i left_down f = f == right_fork i
holds i right_cleared f = f == right_fork i
holds i _ f = false

-- 1 for a thread between its `++` and its `--` of the count
abbrev pub inside : Pc → ℕ
inside outside = 0
inside gated = 0
inside asleep = 0
inside woken = 0
inside passed = 0
inside uncounted = 0
inside signalled = 0
inside _ = 1

abbrev pub number_inside : (ℕ → Pc) → ℕ
number_inside pc = inside (pc 0) + inside (pc 1) + inside (pc 2) + inside (pc 3) + inside (pc 4)

number_inside-update :
    (pc : ℕ → Pc) (i : ℕ) (p : Pc)
    → i < size
    → number_inside (update pc i p) + inside (pc i) ≡ number_inside pc + inside p
number_inside-update pc i p lt = ground arith

-- Locks, flags and count agree with where the threads stand.
pub record IsInvariant (t : Table) (count : ℕ) (pc : ℕ → Pc) : Type 0 where
  pub owned : IsOwned holds pc t.forks
  pub flags : (i : ℕ) → t.who_is_eating i ≡ true → pc i ≡ eating
  pub number : count ≡ number_inside pc

abbrev Holds : State → Type 0
Holds s = IsInvariant s.table s.count s.pc

abbrev Keeps : Option State → Type 0
Keeps none = Unit
Keeps (some s) = Holds s

sides_differ : (i : ℕ) → i < size → left_fork i ≢ right_fork i
sides_differ i lt = omega arith

number_inside-same :
    (pc : ℕ → Pc) (i : ℕ) (p : Pc)
    → inside p ≡ inside (pc i)
    → number_inside (update pc i p) ≡ number_inside pc
number_inside-same pc i p same = omega (arith, at 0, at 1, at 2, at 3, at 4)
  where
    at : (j : ℕ) → inside (update pc i p j) ≡ inside (pc j)
    at j = ground (arith, same)

-- A step that moves thread `i` and changes neither forks nor flags nor count.
quiet :
    {t : Table} {count : ℕ} {pc : ℕ → Pc}
    → IsInvariant t count pc
    → (i : ℕ) (from to : Pc) → pc i ≡ from
    → ((f : ℕ) → holds i to f ≡ holds i from f)
    → inside to ≡ inside from
    → from ≢ eating
    → IsInvariant t count (update pc i to)
quiet {pc = pc} inv i from to at same_forks same_side not_eating = record {
  owned = Ownership.stay holds inv.owned i to (rw at same_forks);
  flags = λ j e. ground (arith, inv.flags j);
  number = ground (arith, inv.number, number_inside-same pc i to (rw at same_side));
}

sleeps_asleep : (p : Pc) → sleeps p ≡ true → p ≡ asleep
sleeps_asleep asleep e = refl
sleeps_asleep p e = ground arith

lock_gate-Keeps :
    (i : ℕ) (p : Pc) (s : State)
    → IsInvariant s.table s.count (update s.pc i p)
    → Keeps (lock_gate i p s)
unfolding lock_gate
lock_gate-Keeps i p s inv = elim (Option-cases s.gate) [
  | inl free ↦ rw (free, Keeps) inv
  | inr (j, by) ↦ rw (by, Keeps) tt
]

take_fork-Keeps :
    (i f : ℕ) (p : Pc) (s : State)
    → i < size
    → IsInvariant s.table s.count s.pc
    → ((g : ℕ) → holds i p g ≡ (g == f) || holds i (s.pc i) g)
    → inside p ≡ inside (s.pc i)
    → s.pc i ≢ eating
    → Keeps (take_fork i f p s)
unfolding take_fork lock
take_fork-Keeps i f p s lt inv more same_side not_eating = elim (Option-cases (s.table.forks f)) [
  | inl free ↦
      rw (free, Keeps)
        record {
          owned = Ownership.take holds inv.owned i p f lt free more;
          flags = λ j e. ground (arith, inv.flags j);
          number = ground (arith, inv.number, number_inside-same s.pc i p same_side);
        }
  | inr (j, by) ↦ rw (by, Keeps) tt
]

signal-Keeps : (chosen : Option ℕ) (s : State) → Holds s → Keeps (signal chosen s)
unfolding signal
signal-Keeps none s inv = elim (Bool-cases (someone_sleeps s)) [
  | inl yes_ ↦ rw (yes_, Keeps) tt
  | inr no_ ↦ rw (no_, Keeps) inv
]
signal-Keeps (some j) s inv = elim (Bool-cases (sleeps (s.pc j))) [
  | inl waits ↦
      rw (waits, Keeps)
        (quiet inv j asleep woken (sleeps_asleep (s.pc j) waits) (λ f. refl) refl (ground arith))
  | inr busy ↦ rw (busy, Keeps) tt
]

module _ {i : ℕ} (s : State) (lt : i < size) (inv : Holds s) where
  act-Keeps : (chosen : Option ℕ) (p : Pc) → s.pc i ≡ p → Keeps (act i chosen p s)
  unfolding act
  act-Keeps chosen outside at =
      lock_gate-Keeps i gated s (quiet inv i outside gated at (λ f. refl) refl (ground arith))
  act-Keeps chosen gated at = elim (Bool-cases (ltb 3 s.count)) [
    | inl many ↦ rw (many, Keeps) (quiet inv i gated asleep at (λ f. refl) refl (ground arith))
    | inr few ↦ rw (few, Keeps) (quiet inv i gated passed at (λ f. refl) refl (ground arith))
  ]
  act-Keeps chosen asleep at = tt
  act-Keeps chosen woken at =
      lock_gate-Keeps i passed s (quiet inv i woken passed at (λ f. refl) refl (ground arith))
  act-Keeps chosen passed at = record {
    owned = Ownership.stay holds inv.owned i counted (λ f. ground (arith, at));
    flags = λ j e. ground (arith, inv.flags j);
    number = ground (arith, at, inv.number, number_inside-update s.pc i counted lt);
  }
  act-Keeps chosen counted at = quiet inv i counted admitted at (λ f. refl) refl (ground arith)
  act-Keeps chosen admitted at =
      take_fork-Keeps i (left_fork i) left_locked s lt inv (λ f. ground (arith, at))
        (ground (arith, at)) (ground (arith, at))
  act-Keeps chosen left_locked at =
      let q = quiet inv i left_locked left_taken at (λ f. refl) refl (ground arith) in
      record { owned = q.owned; flags = q.flags; number = q.number }
  act-Keeps chosen left_taken at =
      take_fork-Keeps i (right_fork i) right_locked s lt inv (λ f. ground (arith, at))
        (ground (arith, at)) (ground (arith, at))
  act-Keeps chosen right_locked at =
      let q = quiet inv i right_locked right_taken at (λ f. refl) refl (ground arith) in
      record { owned = q.owned; flags = q.flags; number = q.number }
  act-Keeps chosen right_taken at = record {
    owned = Ownership.stay holds inv.owned i eating (λ f. ground (arith, at));
    flags = λ j e. ground (arith, inv.flags j);
    number = ground (arith, at, inv.number, number_inside-same s.pc i eating);
  }
  act-Keeps chosen eating at = record {
    owned = Ownership.stay holds inv.owned i sated (λ f. ground (arith, at));
    flags = λ j e. ground (arith, inv.flags j);
    number = ground (arith, at, inv.number, number_inside-same s.pc i sated);
  }
  act-Keeps chosen sated at =
      let q = quiet inv i sated left_cleared at (λ f. refl) refl (ground arith) in
      record { owned = q.owned; flags = q.flags; number = q.number }
  act-Keeps chosen left_cleared at = record {
    owned =
        Ownership.drop holds inv.owned i left_down (left_fork i) lt (ground (arith, at))
          (λ f. ground (arith, at, sides_differ i lt));
    flags = λ j e. ground (arith, inv.flags j);
    number = ground (arith, at, inv.number, number_inside-same s.pc i left_down);
  }
  act-Keeps chosen left_down at =
      let q = quiet inv i left_down right_cleared at (λ f. refl) refl (ground arith) in
      record { owned = q.owned; flags = q.flags; number = q.number }
  act-Keeps chosen right_cleared at = record {
    owned =
        Ownership.drop holds inv.owned i right_down (right_fork i) lt (ground (arith, at))
          (λ f. ground (arith, at));
    flags = λ j e. ground (arith, inv.flags j);
    number = ground (arith, at, inv.number, number_inside-same s.pc i right_down);
  }
  act-Keeps chosen right_down at =
      lock_gate-Keeps i leaving s
        (quiet inv i right_down leaving at (λ f. refl) refl (ground arith))
  act-Keeps chosen leaving at = record {
    owned = Ownership.stay holds inv.owned i uncounted (λ f. ground (arith, at));
    flags = λ j e. ground (arith, inv.flags j);
    number = ground (arith, at, inv.number, number_inside-update s.pc i uncounted lt);
  }
  act-Keeps chosen uncounted at =
      let q = quiet inv i uncounted signalled at (λ f. refl) refl (ground arith) in
      elim (Bool-cases (ltb s.count 4)) [
        | inl room ↦ rw (room, Keeps) (signal-Keeps chosen (go i signalled s) q)
        | inr full ↦ rw (full, Keeps) q
      ]
  act-Keeps chosen signalled at = quiet inv i signalled outside at (λ f. refl) refl (ground arith)

Keeps-step : (r : Option State) {t : State} → Keeps r → r ≡ some t → Holds t
Keeps-step none keeps e = ground arith
Keeps-step (some s) {t} keeps e = subst Holds (some-injective s t e) keeps

start-IsInvariant : Holds at_first
start-IsInvariant = record {
  owned = record { held = λ i f lt h. ground arith; holder = λ i f e. ground arith };
  flags = λ i e. ground arith;
  number = refl;
}

Reach-Holds : {s : State} → Reach s → Holds s
Reach-Holds start = start-IsInvariant
Reach-Holds (move i chosen {s} lt r e) =
    Keeps-step (act i chosen (s.pc i) s) (act-Keeps s lt (Reach-Holds r) chosen (s.pc i) refl) e
Reach-Holds (spurious i lt r at) =
    quiet (Reach-Holds r) i asleep woken at (λ f. refl) refl (ground arith)

-- In every reachable state `eating_philosopthers_count` is the number of threads between their `++`
-- and their `--` of it, and each fork is locked by a thread exactly when that thread is between its
-- lock and its unlock of it.
pub Reach-counted :
    {s : State} → Reach s → (s.count ≡ number_inside s.pc) × IsOwned holds s.pc s.table.forks
Reach-counted r = let inv = Reach-Holds r in (inv.number, inv.owned)

-- In every reachable state, while a philosopher eats, the one to the right does not.
pub Reach-apart :
    {s : State}
    → Reach s
    → (i : ℕ) → i < size
    → s.table.who_is_eating i ≡ true
    → s.table.who_is_eating (right_fork i) ≡ false
Reach-apart {s} r i lt e = elim (Bool-cases (s.table.who_is_eating (right_fork i))) [
  | inl both ↦
      let inv = Reach-Holds r in
      ground (
        arith,
        sides_differ i lt,
        inv.flags i e,
        inv.flags (right_fork i) both,
        inv.owned.held i (right_fork i) lt,
        inv.owned.held (right_fork i) (right_fork i) (omega arith),
      )
  | inr alone ↦ alone
]
