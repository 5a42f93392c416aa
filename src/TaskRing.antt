-- ===== src/TaskRing.antt =====
-- lab08/zad1: one producer and one consumer over the ring of tasks in shared memory. A step is a
-- `semop` or the work between two; `none` is a `semop` that blocks.
pub mod Order
mod Examples
use operating_systems_agh_la.Base.{
  ℕ, zero, suc, ◌+◌, ◌-◌, ◌*◌, ◌%◌, ◌≡◌, Bool, Option, none, some, List, [], ◌∷◌, ◌++◌,
  if◌then◌else◌, ◌==◌,
}
use operating_systems_agh_la.Base.Maps.{update}

-- TASK_LENGTH and TASK_TAB_LENGTH
abbrev pub task_length : ℕ
task_length = 50

abbrev pub task_tab_length : ℕ
task_tab_length = 10

-- The arithmetic of `double`.
pub record Doubles (D : Type 0) : Type 0 where
  pub greater : D → D → Bool
  pub less : D → D → Bool
  pub add : D → D → D
  pub over_length : D → D

-- What the consumer prints of a task.
pub record Report (D : Type 0) : Type 0 where
  pub min : D
  pub max : D
  pub avg : D

pub data ProducerPc : Type 0 where
  waiting : ProducerPc
  admitted : ProducerPc
  task_put : ProducerPc

pub data ConsumerPc : Type 0 where
  waiting : ConsumerPc
  admitted : ConsumerPc
  task_executed : ConsumerPc

-- The two semaphores, the shared memory, where the two processes stand, and what was printed.
pub record Ring (D : Type 0) : Type 0 where
  pub sem_producer : ℕ
  pub sem_consumer : ℕ
  pub producer_slot : ℕ
  pub consumer_slot : ℕ
  pub producer_counter : ℕ
  pub consumer_counter : ℕ
  pub task_tab : ℕ → D
  pub producer : ProducerPc
  pub consumer : ConsumerPc
  pub printed : List (Report D)

module _ {D : Type 0} where
  -- The loop of `put_task`, run down: the cells from `base` on get the values.
  unfoldable pub write_cells : ℕ → ℕ → (ℕ → D) → (ℕ → D) → ℕ → D
  write_cells zero base values tab = tab
  write_cells (suc n) base values tab = update (write_cells n base values tab) (base + n) (values n)

  -- The loop of `execute_task` from index `i`, `n` rounds; `avg` holds the sum.
  unfoldable pub scan : Doubles D → ℕ → ℕ → (ℕ → D) → Report D → Report D
  scan ops zero i values r = r
  scan ops (suc n) i values r = scan ops n (suc i) values record {
    min = if ops.less (values i) r.min then values i else r.min;
    max = if ops.greater (values i) r.max then values i else r.max;
    avg = ops.add r.avg (values i);
  }

  unfoldable pub task_report : Doubles D → (ℕ → D) → Report D
  task_report ops values =
      let r =
        scan ops (task_length - 1) 1 values
          (record { min = values 0; max = values 0; avg = values 0 }) in
      record r { avg = ops.over_length r.avg }

  unfoldable pub put_task : (ℕ → D) → Ring D → Ring D
  put_task values s = record s {
    task_tab = write_cells task_length (s.producer_slot * task_length) values s.task_tab;
    producer_counter = suc s.producer_counter;
    producer_slot = (s.producer_slot + 1) % task_tab_length;
  }

  unfoldable pub execute_task : Doubles D → Ring D → Ring D
  execute_task ops s = record s {
    printed =
        s.printed ++ task_report ops (λ i. s.task_tab (s.consumer_slot * task_length + i)) ∷ [];
    consumer_counter = suc s.consumer_counter;
    consumer_slot = (s.consumer_slot + 1) % task_tab_length;
  }

  -- `draw k` are the numbers that `rand` gives for the task number `k`.
  unfoldable pub producer_act : (ℕ → ℕ → D) → ProducerPc → Ring D → Option (Ring D)
  unfolding put_task
  producer_act draw ProducerPc.waiting s =
      if s.sem_producer == 0
      then none
      else some (record s { sem_producer = s.sem_producer - 1; producer = ProducerPc.admitted })
  producer_act draw ProducerPc.admitted s =
      some (record (put_task (draw s.producer_counter) s) { producer = ProducerPc.task_put })
  producer_act draw ProducerPc.task_put s =
      some (record s { sem_consumer = s.sem_consumer + 1; producer = ProducerPc.waiting })

  unfoldable pub consumer_act : Doubles D → ConsumerPc → Ring D → Option (Ring D)
  unfolding execute_task
  consumer_act ops ConsumerPc.waiting s =
      if s.sem_consumer == 0
      then none
      else some (record s { sem_consumer = s.sem_consumer - 1; consumer = ConsumerPc.admitted })
  consumer_act ops ConsumerPc.admitted s =
      some (record (execute_task ops s) { consumer = ConsumerPc.task_executed })
  consumer_act ops ConsumerPc.task_executed s =
      some (record s { sem_producer = s.sem_producer + 1; consumer = ConsumerPc.waiting })

  -- The memory that the first producer sets up.
  abbrev pub empty_ring : (ℕ → D) → Ring D
  empty_ring tab = record {
    sem_producer = task_tab_length;
    sem_consumer = 0;
    producer_slot = 0;
    consumer_slot = 0;
    producer_counter = 0;
    consumer_counter = 0;
    task_tab = tab;
    producer = ProducerPc.waiting;
    consumer = ConsumerPc.waiting;
    printed = [];
  }

  -- The states that the two processes reach, their steps in any order.
  pub data Reach (ops : Doubles D) (draw : ℕ → ℕ → D) : Ring D → Type 0 where
    start : (tab : ℕ → D) → Reach ops draw (empty_ring tab)
    produce :
        {s t : Ring D}
        → Reach ops draw s
        → producer_act draw s.producer s ≡ some t
        → Reach ops draw t
    consume :
        {s t : Ring D}
        → Reach ops draw s
        → consumer_act ops s.consumer s ≡ some t
        → Reach ops draw t
