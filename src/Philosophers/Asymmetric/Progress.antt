-- ===== src/Philosophers/Asymmetric/Progress.antt =====
-- lab09/zad3a/philosophers.c: which thread can go on.
use mathlib.Core.Option
use operating_systems_agh_la.Base.{
  ℕ, ◌<◌, ◌≡◌, refl, ap, ◌≢◌, ◌⊎◌, true, none, some, arith, ◌==◌, inl, inr, Bool-cases,
  Option-cases,
}
use operating_systems_agh_la.Base.Maps.{update}
use operating_systems_agh_la.Philosophers.Table.{Table, size, lock}
use operating_systems_agh_la.Philosophers.Asymmetric.{
  Pc, thinking, first_locked, first_taken, second_locked, second_taken, eating, sated, left_cleared,
  left_down, right_cleared, State, first_fork, second_fork, act, step, Reach,
}
use operating_systems_agh_la.Philosophers.Asymmetric.Safety.{holds, IsInvariant, Reach-IsInvariant}

-- thread `i` is not blocked
abbrev pub Moves : State → ℕ → Type 0
Moves s i = (t : State) × (step i s ≡ some t)

-- what the lock of a free fork leaves
abbrev locked : ℕ → ℕ → Table → Table
locked i f t = record t { forks = update t.forks f (some i) }

abbrev Acts : ℕ → Pc → Table → Type 0
Acts i p t = (r : Table × Pc) × (act i p t ≡ some r)

-- Acts, or waits for a fork that is locked.
data Status (i : ℕ) (t : Table) : Pc → Type 0 where
  acts : {p : Pc} → Acts i p t → Status i t p
  wants_first : (j : ℕ) → t.forks (first_fork i) ≡ some j → Status i t thinking
  wants_second : (j : ℕ) → t.forks (second_fork i) ≡ some j → Status i t first_taken

status : (i : ℕ) (p : Pc) (t : Table) → Status i t p
unfolding act lock
status i thinking t = elim (Option-cases (t.forks (first_fork i))) [
  | inl free ↦ acts ((locked i (first_fork i) t, first_locked), rw (free, lock, Option.map) refl)
  | inr (j, by) ↦ wants_first j by
]
status i first_taken t = elim (Option-cases (t.forks (second_fork i))) [
  | inl free ↦ acts ((locked i (second_fork i) t, second_locked), rw (free, lock, Option.map) refl)
  | inr (j, by) ↦ wants_second j by
]
status i first_locked t = acts (_, refl)
status i second_locked t = acts (_, refl)
status i second_taken t = acts (_, refl)
status i eating t = acts (_, refl)
status i sated t = acts (_, refl)
status i left_cleared t = acts (_, refl)
status i left_down t = acts (_, refl)
status i right_cleared t = acts (_, refl)

-- A thread that has locked a fork other than its first one waits for none.
ahead : (i f : ℕ) (p : Pc) (t : Table) → holds i p f ≡ true → f ≢ first_fork i → Acts i p t
unfolding act lock
ahead i f thinking t has ne = ground arith
ahead i f first_locked t has ne = ground arith
ahead i f first_taken t has ne = ground arith
ahead i f second_locked t has ne = (_, refl)
ahead i f second_taken t has ne = (_, refl)
ahead i f eating t has ne = (_, refl)
ahead i f sated t has ne = (_, refl)
ahead i f left_cleared t has ne = (_, refl)
ahead i f left_down t has ne = (_, refl)
ahead i f right_cleared t has ne = (_, refl)

module _ {s : State} (inv : IsInvariant s) where
  abbrev Someone : Type 0
  Someone = (i : ℕ) × (i < size) × Acts i (s.pc i) s.table

  holder-Acts :
      (i f : ℕ) → s.table.forks f ≡ some i → f ≢ first_fork i → (i < size) × Acts i (s.pc i) s.table
  holder-Acts i f by ne =
      let h = inv.owned.holder i f by in (h.0, ahead i f (s.pc i) s.table h.1 ne)

  -- Forks 2 and 4 are nobody's first fork.
  even_fork : (i f : ℕ) → s.table.forks f ≡ some i → (f ≡ 2) ⊎ (f ≡ 4) → Someone
  even_fork i f by even =
      let h = inv.owned.holder i f by in let a = holder-Acts i f by (ne h.0) in (i, a.0, a.1)
    where
      ne : i < size → f ≢ first_fork i
      ne lt = ground arith

  -- Fork 3 is the first fork of philosophers 2 and 3 alone.
  fork_three : (j : ℕ) → s.table.forks 3 ≡ some j → s.pc 3 ≡ thinking → (j ≡ 2) ⊎ Someone
  fork_three j by idle = elim (Bool-cases (j == 2)) [
    | inl two ↦ inl (ground arith)
    | inr not_two ↦
        let a = holder-Acts j 3 by (ground (arith, inv.owned.holder j 3 by)) in inr (j, a.0, a.1)
  ]

  second_waits : {p : Pc} → Status 2 s.table p → s.pc 2 ≡ p → s.table.forks 3 ≡ some 2 → Someone
  second_waits (acts a) at by = (2, omega arith, rw at a)
  second_waits (wants_first j e) at by = ground (arith, inv.owned.holder 2 3 by)
  second_waits (wants_second j e) at by = even_fork j 2 e (inl refl)

  third_waits : {p : Pc} → Status 3 s.table p → s.pc 3 ≡ p → s.table.forks 4 ≡ none → Someone
  third_waits (acts a) at free = (3, omega arith, rw at a)
  third_waits (wants_first j e) at free = elim (fork_three j e at) [
    | inl two ↦ second_waits (status 2 (s.pc 2) s.table) refl (rw two at e)
    | inr someone ↦ someone
  ]
  third_waits (wants_second j e) at free = ground arith

  someone_acts : Someone
  someone_acts = elim (Option-cases (s.table.forks 4)) [
    | inl free ↦ third_waits (status 3 (s.pc 3) s.table) refl free
    | inr (j, by) ↦ even_fork j 4 by (inr refl)
  ]

-- There is no deadlock: in every reachable state one of the five threads can go on.
pub Reach-Moves : {s : State} → Reach s → (i : ℕ) × (i < size) × Moves s i
Reach-Moves {s} r =
    let a = someone_acts (Reach-IsInvariant r) in
    (a.0, a.1, (_, ap (Option.map (λ (t, p). record { table = t; pc = update s.pc a.0 p })) a.2.1))
