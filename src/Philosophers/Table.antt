-- ===== src/Philosophers/Table.antt =====
-- What the philosophers of lab09/zad3a/philosophers.c and lab09/zad3b/philosophers.c share.
use operating_systems_agh_la.Base.{ℕ, ◌+◌, ◌%◌, Bool, false, Option, none, some}
use operating_systems_agh_la.Base.Maps.{update}

-- SIZE
abbrev pub size : ℕ
size = 5

-- `forks` are the mutexes, each with the thread that has it locked; `who_has_fork` holds `none`
-- where the source holds -1.
pub record Table : Type 0 where
  pub forks : ℕ → Option ℕ
  pub who_is_eating : ℕ → Bool
  pub who_has_fork : ℕ → Option ℕ

-- the loop of `main` that fills the arrays
abbrev pub laid : Table
laid = record { forks = λ _. none; who_is_eating = λ _. false; who_has_fork = λ _. none }

abbrev pub left_fork : ℕ → ℕ
left_fork i = i

abbrev pub right_fork : ℕ → ℕ
right_fork i = (i + 1) % 5

-- `pthread_mutex_lock` of a fork by thread `i`: `none` while another thread has it.
unfoldable pub lock : ℕ → ℕ → Table → Option Table
lock i f t = elim (t.forks f) [
  | none ↦ some (record t { forks = update t.forks f (some i) })
  | some _ ↦ none
]

abbrev pub unlock : ℕ → Table → Table
unlock f t = record t { forks = update t.forks f none }

abbrev pub set_owner : ℕ → Option ℕ → Table → Table
set_owner f o t = record t { who_has_fork = update t.who_has_fork f o }

abbrev pub set_eating : ℕ → Bool → Table → Table
set_eating i b t = record t { who_is_eating = update t.who_is_eating i b }
