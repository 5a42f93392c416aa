-- ===== src/TaskRing/Examples.antt =====
-- The ring of tasks at work, on natural numbers in place of `double`.
use operating_systems_agh_la.Base.{ℕ, ◌+◌, ◌/◌, ◌≤◌, ◌≡◌, refl, ltb}
use operating_systems_agh_la.TaskRing.{
  Doubles, Ring, task_tab_length, scan, task_report, put_task, execute_task, producer_act,
  consumer_act, Reach, start, produce, consume,
}
use operating_systems_agh_la.TaskRing.Order.{reports, printed-reports, CanGoOn, Reach-CanGoOn}

abbrev numbers : Doubles ℕ
numbers = record { greater = λ a b. ltb b a; less = ltb; add = ◌+◌; over_length = λ a. a / 50 }

-- task `k` holds `k`, `k + 1` and so on
abbrev draw : ℕ → ℕ → ℕ
draw k i = k + i

report_of_first : task_report numbers (draw 0) ≡ record { min = 0; max = 49; avg = 24 }
unfolding task_report scan
report_of_first = refl

-- one task is put and executed
one_task : (s : Ring ℕ) × Reach numbers draw s × (s.consumer_counter ≡ 1)
unfolding producer_act consumer_act put_task execute_task
one_task = (
  _,
  consume (consume (produce (produce (produce (start (λ _. 0)) refl) refl) refl) refl) refl,
  refl,
)

printed-reports_example :
    (one_task.0.printed ≡ reports numbers draw one_task.0.consumer_counter)
    × (one_task.0.consumer_counter ≤ one_task.0.producer_counter)
    × (one_task.0.producer_counter ≤ one_task.0.consumer_counter + task_tab_length)
printed-reports_example = printed-reports numbers draw one_task.1

Reach-CanGoOn_example : CanGoOn numbers draw one_task.0
Reach-CanGoOn_example = Reach-CanGoOn numbers draw one_task.1
