-- ===== src/Philosophers/Asymmetric.antt =====
-- lab09/zad3a/philosophers.c: an odd philosopher takes the left fork first, an even one the right.
-- A step of a thread is one access to what the threads share; `none` is a blocked thread.
pub mod Safety
pub mod Progress
use operating_systems_agh_la.Base.{
  ℕ, ◌%◌, ◌<◌, ◌≡◌, Bool, true, false, Option, none, some, List, [], ◌∷◌, ◌==◌, ltb, if◌then◌else◌,
}
use mathlib.Core.Option
use operating_systems_agh_la.Base.Maps.{update}
use operating_systems_agh_la.Philosophers.Table.{
  Table, size, laid, left_fork, right_fork, lock, unlock, set_owner, set_eating,
}

-- Where a thread stands: what it has done last in its round.
pub data Pc : Type 0 where
  thinking : Pc
  first_locked : Pc
  first_taken : Pc
  second_locked : Pc
  second_taken : Pc
  eating : Pc
  sated : Pc
  left_cleared : Pc
  left_down : Pc
  right_cleared : Pc

pub record State : Type 0 where
  pub table : Table
  pub pc : ℕ → Pc

abbrev pub first_fork : ℕ → ℕ
first_fork i = if i % 2 == 0 then right_fork i else left_fork i

abbrev pub second_fork : ℕ → ℕ
second_fork i = if i % 2 == 0 then left_fork i else right_fork i

-- The next access of thread `i` that stands at the given place.
unfoldable pub act : ℕ → Pc → Table → Option (Table × Pc)
unfolding lock
act i thinking t = Option.map (λ t'. (t', first_locked)) (lock i (first_fork i) t)
act i first_locked t = some (set_owner (first_fork i) (some i) t, first_taken)
act i first_taken t = Option.map (λ t'. (t', second_locked)) (lock i (second_fork i) t)
act i second_locked t = some (set_owner (second_fork i) (some i) t, second_taken)
act i second_taken t = some (set_eating i true t, eating)
act i eating t = some (set_eating i false t, sated)
act i sated t = some (set_owner (left_fork i) none t, left_cleared)
act i left_cleared t = some (unlock (left_fork i) t, left_down)
act i left_down t = some (set_owner (right_fork i) none t, right_cleared)
act i right_cleared t = some (unlock (right_fork i) t, thinking)

abbrev pub step : ℕ → State → Option State
step i s =
    Option.map (λ (t, p). record { table = t; pc = update s.pc i p }) (act i (s.pc i) s.table)

-- The states that the five threads reach from the start, in any order.
pub data Reach : State → Type 0 where
  start : Reach (record { table = laid; pc = λ _. thinking })
  move : (i : ℕ) {s t : State} → i < size → Reach s → step i s ≡ some t → Reach t
