-- ===== src/Philosophers/Counted.antt =====
-- lab09/zad3b/philosophers.c: every philosopher takes the left fork first, after a count of those
-- at the table has let it in; who finds the count above 3 waits once on a condition variable. A
-- step of a thread is one access to what the threads share; `none` is a blocked thread.
pub mod Safety
mod Examples
use operating_systems_agh_la.Base.{
  ℕ, suc, ◌+◌, ◌-◌, ◌<◌, ◌≡◌, Bool, true, false, Option, none, some, ◌==◌, ◌||◌, ltb, if◌then◌else◌,
}
use operating_systems_agh_la.Base.Maps.{update}
use operating_systems_agh_la.Philosophers.Table.{
  Table, size, laid, left_fork, right_fork, lock, unlock, set_owner, set_eating,
}

-- Where a thread stands: what it has done last in its round. It has `eating_possibility_mutex` at
-- `gated`, `passed`, `counted`, `leaving`, `uncounted` and `signalled`.
pub data Pc : Type 0 where
  outside : Pc
  gated : Pc
  asleep : Pc
  woken : Pc
  passed : Pc
  counted : Pc
  admitted : Pc
  left_locked : Pc
  left_taken : Pc
  right_locked : Pc
  right_taken : Pc
  eating : Pc
  sated : Pc
  left_cleared : Pc
  left_down : Pc
  right_cleared : Pc
  right_down : Pc
  leaving : Pc
  uncounted : Pc
  signalled : Pc

-- `gate` is `eating_possibility_mutex`, `count` is `eating_philosopthers_count`.
pub record State : Type 0 where
  pub table : Table
  pub gate : Option ℕ
  pub count : ℕ
  pub pc : ℕ → Pc

abbrev pub go : ℕ → Pc → State → State
go i p s = record s { pc = update s.pc i p }

abbrev pub go_with : ℕ → Pc → Table → State → State
go_with i p t s = record s { table = t; pc = update s.pc i p }

-- `pthread_mutex_lock` and `pthread_mutex_unlock` of the gate
unfoldable pub lock_gate : ℕ → Pc → State → Option State
lock_gate i p s = elim s.gate [
  | none ↦ some (record s { gate = some i; pc = update s.pc i p })
  | some _ ↦ none
]

abbrev pub unlock_gate : ℕ → Pc → State → State
unlock_gate i p s = record s { gate = none; pc = update s.pc i p }

unfoldable pub take_fork : ℕ → ℕ → Pc → State → Option State
unfolding lock
take_fork i f p s = elim (lock i f s.table) [ none ↦ none | some t ↦ some (go_with i p t s) ]

abbrev pub sleeps : Pc → Bool
sleeps asleep = true
sleeps _ = false

abbrev pub someone_sleeps : State → Bool
someone_sleeps s =
    sleeps (s.pc 0) || sleeps (s.pc 1) || sleeps (s.pc 2) || sleeps (s.pc 3) || sleeps (s.pc 4)

-- `pthread_cond_signal`: it wakes one of the threads that wait, if there is one.
unfoldable pub signal : Option ℕ → State → Option State
signal none s = if someone_sleeps s then none else some s
signal (some j) s = if sleeps (s.pc j) then some (go j woken s) else none

-- The next access of thread `i` that stands at the given place; `chosen` is the thread that a
-- signal wakes.
unfoldable pub act : ℕ → Option ℕ → Pc → State → Option State
unfolding lock_gate take_fork signal
act i chosen outside s = lock_gate i gated s
act i chosen gated s = if ltb 3 s.count then some (unlock_gate i asleep s) else some (go i passed s)
act i chosen asleep s = none
act i chosen woken s = lock_gate i passed s
act i chosen passed s = some (go i counted (record s { count = s.count + 1 }))
act i chosen counted s = some (unlock_gate i admitted s)
act i chosen admitted s = take_fork i (left_fork i) left_locked s
act i chosen left_locked s =
    some (go_with i left_taken (set_owner (left_fork i) (some i) s.table) s)
act i chosen left_taken s = take_fork i (right_fork i) right_locked s
act i chosen right_locked s =
    some (go_with i right_taken (set_owner (right_fork i) (some i) s.table) s)
act i chosen right_taken s = some (go_with i eating (set_eating i true s.table) s)
act i chosen eating s = some (go_with i sated (set_eating i false s.table) s)
act i chosen sated s = some (go_with i left_cleared (set_owner (left_fork i) none s.table) s)
act i chosen left_cleared s = some (go_with i left_down (unlock (left_fork i) s.table) s)
act i chosen left_down s = some (go_with i right_cleared (set_owner (right_fork i) none s.table) s)
act i chosen right_cleared s = some (go_with i right_down (unlock (right_fork i) s.table) s)
act i chosen right_down s = lock_gate i leaving s
act i chosen leaving s = some (go i uncounted (record s { count = s.count - 1 }))
act i chosen uncounted s =
    if ltb s.count 4 then signal chosen (go i signalled s) else some (go i signalled s)
act i chosen signalled s = some (unlock_gate i outside s)

abbrev pub at_first : State
at_first = record { table = laid; gate = none; count = 0; pc = λ _. outside }

-- The states that the five threads reach from the start, in any order. A thread may also wake up
-- from `pthread_cond_wait` with no signal.
pub data Reach : State → Type 0 where
  start : Reach at_first
  move :
      (i : ℕ) (chosen : Option ℕ) {s t : State}
      → i < size
      → Reach s
      → act i chosen (s.pc i) s ≡ some t
      → Reach t
  spurious : (i : ℕ) {s : State} → i < size → Reach s → s.pc i ≡ asleep → Reach (go i woken s)
