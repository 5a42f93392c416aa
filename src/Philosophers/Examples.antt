-- ===== src/Philosophers/Examples.antt =====
-- The philosophers at work, and the theorems about them at concrete states.
use operating_systems_agh_la.Base.{ℕ, ◌<◌, ◌≡◌, refl, true, false, some, arith}
use operating_systems_agh_la.Philosophers.Table.{size, lock}
use operating_systems_agh_la.Philosophers.Asymmetric.{State, act, Reach, start, move}
use operating_systems_agh_la.Philosophers.Asymmetric.Safety.{Reach-exclusive}
use operating_systems_agh_la.Philosophers.Asymmetric.Progress.{Moves, Reach-Moves}

-- philosopher 0 has taken both forks and eats
dinner : (s : State) × Reach s × (s.table.who_is_eating 0 ≡ true)
unfolding act lock
dinner = (
  _,
  move 0 (omega arith)
      (move 0 (omega arith)
        (move 0 (omega arith) (move 0 (omega arith) (move 0 (omega arith) start refl) refl) refl)
        refl)
      refl,
  refl,
)

Reach-exclusive_example :
    (dinner.0.table.who_is_eating 1 ≡ false)
    × (dinner.0.table.who_has_fork 0 ≡ some 0)
    × (dinner.0.table.who_has_fork 1 ≡ some 0)
Reach-exclusive_example = Reach-exclusive dinner.1 0 (omega arith) dinner.2

Reach-Moves_example : (i : ℕ) × (i < size) × Moves dinner.0 i
Reach-Moves_example = Reach-Moves dinner.1
