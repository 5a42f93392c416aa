-- ===== src/Philosophers/Asymmetric/Safety.antt =====
-- lab09/zad3a/philosophers.c: the forks, the records of who has them, and who eats.
use operating_systems_agh_la.Base.{
  ℕ, ◌<◌, ◌≡◌, refl, subst, ◌≢◌, Bool, true, false, Option, none, some, arith, ◌==◌, ◌||◌, inl, inr,
  Bool-cases, Option-cases,
}
use mathlib.Core.Option
use mathlib.Core.Option.{some-injective}
use operating_systems_agh_la.Base.Maps.{update}
use operating_systems_agh_la.Philosophers.Table.{Table, size, laid, left_fork, right_fork, lock}
use operating_systems_agh_la.Philosophers.Ownership.{IsOwned}
use operating_systems_agh_la.Philosophers.Ownership
use operating_systems_agh_la.Philosophers.Asymmetric.{
  Pc, thinking, first_locked, first_taken, second_locked, second_taken, eating, sated, left_cleared,
  left_down, right_cleared, State, first_fork, second_fork, act, Reach, start, move,
}

-- the forks that thread `i` has locked at a place
abbrev pub holds : ℕ → Pc → ℕ → Bool
holds i thinking f = false
holds i first_locked f = f == first_fork i
holds i first_taken f = f == first_fork i
holds i left_down f = f == right_fork i
holds i right_cleared f = f == right_fork i
holds i _ f = (f == left_fork i) || (f == right_fork i)

-- the forks that thread `i` is recorded to have at a place
abbrev pub marks : ℕ → Pc → ℕ → Bool
marks i first_taken f = f == first_fork i
marks i second_locked f = f == first_fork i
marks i second_taken f = (f == left_fork i) || (f == right_fork i)
marks i eating f = (f == left_fork i) || (f == right_fork i)
marks i sated f = (f == left_fork i) || (f == right_fork i)
marks i left_cleared f = f == right_fork i
marks i left_down f = f == right_fork i
marks i _ f = false

-- Locks, records and flags agree with where the threads stand.
pub record IsInvariant (s : State) : Type 0 where
  pub owned : IsOwned holds s.pc s.table.forks
  pub marked : IsOwned marks s.pc s.table.who_has_fork
  pub flags : (i : ℕ) → s.table.who_is_eating i ≡ true → s.pc i ≡ eating

sides_differ : (i : ℕ) → i < size → left_fork i ≢ right_fork i
sides_differ i lt = omega arith

marks-holds : (i : ℕ) (p : Pc) (f : ℕ) → marks i p f ≡ true → holds i p f ≡ true
marks-holds i thinking f m = ground arith
marks-holds i first_locked f m = ground arith
marks-holds i first_taken f m = m
marks-holds i second_locked f m = ground arith
marks-holds i second_taken f m = m
marks-holds i eating f m = m
marks-holds i sated f m = m
marks-holds i left_cleared f m = ground arith
marks-holds i left_down f m = m
marks-holds i right_cleared f m = ground arith

-- A fork that `i` has locked and is not recorded to have is recorded to be free.
unmarked :
    {s : State} (i g : ℕ)
    → IsInvariant s
    → s.table.forks g ≡ some i
    → marks i (s.pc i) g ≡ false
    → s.table.who_has_fork g ≡ none
unmarked {s} i g inv has not_yet = elim (Option-cases (s.table.who_has_fork g)) [
  | inl free ↦ free
  | inr (j, by) ↦
      let m = inv.marked.holder j g by in
      ground (arith, inv.owned.held j g m.0 (marks-holds j (s.pc j) g m.1))
]

-- The invariant after what `act` does, if it does not block.
abbrev Keeps : ℕ → State → Option (Table × Pc) → Type 0
Keeps i s none = Unit
Keeps i s (some (t, p)) = IsInvariant (record { table = t; pc = update s.pc i p })

module _ {i : ℕ} {s : State} (lt : i < size) (inv : IsInvariant s) where
  act-Keeps : (p : Pc) → s.pc i ≡ p → Keeps i s (act i p s.table)
  unfolding act lock
  act-Keeps thinking at = elim (Option-cases (s.table.forks (first_fork i))) [
    | inl free ↦
        rw (free, lock, Option.map, Keeps)
          (record {
            owned =
                Ownership.take holds inv.owned i first_locked (first_fork i) lt free
                  (λ f. ground arith);
            marked = Ownership.stay marks inv.marked i first_locked (λ f. ground arith);
            flags = λ j e. ground (arith, inv.flags j);
          })
    | inr (j, by) ↦ rw (by, lock, Option.map, Keeps) tt
  ]
  act-Keeps first_locked at = record {
    owned = Ownership.stay holds inv.owned i first_taken (λ f. ground arith);
    marked =
        Ownership.take marks inv.marked i first_taken (first_fork i) lt
          (unmarked i (first_fork i) inv (inv.owned.held i (first_fork i) lt (ground arith))
            (ground arith))
          (λ f. ground arith);
    flags = λ j e. ground (arith, inv.flags j);
  }
  act-Keeps first_taken at = elim (Option-cases (s.table.forks (second_fork i))) [
    | inl free ↦
        rw (free, lock, Option.map, Keeps)
          (record {
            owned =
                Ownership.take holds inv.owned i second_locked (second_fork i) lt free
                  (λ f. ground arith);
            marked =
                Ownership.stay marks inv.marked i second_locked
                  (λ f. ground (arith, sides_differ i lt));
            flags = λ j e. ground (arith, inv.flags j);
          })
    | inr (j, by) ↦ rw (by, lock, Option.map, Keeps) tt
  ]
  act-Keeps second_locked at = record {
    owned = Ownership.stay holds inv.owned i second_taken (λ f. ground (arith, sides_differ i lt));
    marked =
        Ownership.take marks inv.marked i second_taken (second_fork i) lt
          (unmarked i (second_fork i) inv (inv.owned.held i (second_fork i) lt (ground arith))
            (ground (arith, sides_differ i lt)))
          (λ f. ground arith);
    flags = λ j e. ground (arith, inv.flags j);
  }
  act-Keeps second_taken at = record {
    owned = Ownership.stay holds inv.owned i eating (λ f. ground (arith, sides_differ i lt));
    marked = Ownership.stay marks inv.marked i eating (λ f. ground (arith, sides_differ i lt));
    flags = λ j e. ground (arith, inv.flags j);
  }
  act-Keeps eating at = record {
    owned = Ownership.stay holds inv.owned i sated (λ f. ground (arith, sides_differ i lt));
    marked = Ownership.stay marks inv.marked i sated (λ f. ground (arith, sides_differ i lt));
    flags = λ j e. ground (arith, inv.flags j);
  }
  act-Keeps sated at = record {
    owned = Ownership.stay holds inv.owned i left_cleared (λ f. ground (arith, sides_differ i lt));
    marked =
        Ownership.drop marks inv.marked i left_cleared (left_fork i) lt (ground arith)
          (λ f. ground (arith, sides_differ i lt));
    flags = λ j e. ground (arith, inv.flags j);
  }
  act-Keeps left_cleared at = record {
    owned =
        Ownership.drop holds inv.owned i left_down (left_fork i) lt (ground arith)
          (λ f. ground (arith, sides_differ i lt));
    marked = Ownership.stay marks inv.marked i left_down (λ f. ground arith);
    flags = λ j e. ground (arith, inv.flags j);
  }
  act-Keeps left_down at = record {
    owned = Ownership.stay holds inv.owned i right_cleared (λ f. ground (arith, sides_differ i lt));
    marked =
        Ownership.drop marks inv.marked i right_cleared (right_fork i) lt (ground arith)
          (λ f. ground arith);
    flags = λ j e. ground (arith, inv.flags j);
  }
  act-Keeps right_cleared at = record {
    owned =
        Ownership.drop holds inv.owned i thinking (right_fork i) lt (ground arith)
          (λ f. ground arith);
    marked = Ownership.stay marks inv.marked i thinking (λ f. ground (arith, sides_differ i lt));
    flags = λ j e. ground (arith, inv.flags j);
  }

start-IsInvariant : IsInvariant (record { table = laid; pc = λ _. thinking })
start-IsInvariant = record {
  owned = record { held = λ i f lt h. ground arith; holder = λ i f e. ground arith };
  marked = record { held = λ i f lt h. ground arith; holder = λ i f e. ground arith };
  flags = λ i e. ground arith;
}

step-Keeps :
    (i : ℕ) (s t : State) (r : Option (Table × Pc))
    → Keeps i s r
    → Option.map (λ (t, p). record { table = t; pc = update s.pc i p }) r ≡ some t
    → IsInvariant t
step-Keeps i s t none keeps e = ground arith
step-Keeps i s t (some (table, p)) keeps e = subst IsInvariant (some-injective _ _ e) keeps

-- In every reachable state the mutexes, `who_has_fork` and `who_is_eating` agree with where the
-- threads stand.
pub Reach-IsInvariant : {s : State} → Reach s → IsInvariant s
Reach-IsInvariant start = start-IsInvariant
Reach-IsInvariant (move i {s} {t} lt r e) =
    step-Keeps i s t (act i (s.pc i) s.table) (act-Keeps lt (Reach-IsInvariant r) (s.pc i) refl) e

-- Two philosophers who use the same fork never eat at the same time, and while one eats,
-- `who_has_fork` gives both forks as that philosopher's.
pub Reach-exclusive :
    {s : State}
    → Reach s
    → (i : ℕ) → i < size
    → s.table.who_is_eating i ≡ true
    → (s.table.who_is_eating (right_fork i) ≡ false)
      × (s.table.who_has_fork (left_fork i) ≡ some i)
      × (s.table.who_has_fork (right_fork i) ≡ some i)
Reach-exclusive {s} r i lt e = (
  elim (Bool-cases (s.table.who_is_eating (right_fork i))) [
    | inl both ↦ ground (
      arith,
      has_right,
      sides_differ i lt,
      inv.owned.held (right_fork i) (right_fork i) (omega arith),
      inv.flags (right_fork i) both,
    )
    | inr alone ↦ alone
  ],
  inv.marked.held i (left_fork i) lt (ground (arith, at)),
  inv.marked.held i (right_fork i) lt (ground (arith, at)),
)
  where
    inv : IsInvariant s
    inv = Reach-IsInvariant r

    at : s.pc i ≡ eating
    at = inv.flags i e

    has_right : s.table.forks (right_fork i) ≡ some i
    has_right = inv.owned.held i (right_fork i) lt (ground (arith, at))
