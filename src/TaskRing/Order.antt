-- ===== src/TaskRing/Order.antt =====
-- lab08/zad1: the order of the tasks, and the semaphores.
use mathlib.Core.Option.{some-injective}
use operating_systems_agh_la.Base.{
  ℕ, zero, suc, ◌+◌, ◌-◌, ◌*◌, ◌%◌, ◌≤◌, ◌<◌, ◌≡◌, refl, sym, subst, ltb, ap, ◌∙◌, ◌⊎◌, inl, inr,
  Bool-cases, ◌==◌, true, Option, none, some, List, [], ◌∷◌, ◌++◌, arith,
}
use operating_systems_agh_la.TaskRing.{
  task_length, task_tab_length, Doubles, Report, ProducerPc, ConsumerPc, Ring, write_cells, scan,
  task_report, put_task, execute_task, producer_act, consumer_act, Reach, start, produce, consume,
}

-- a slot that the producer has claimed and not yet put, or put and not yet announced
abbrev claimed : ProducerPc → ℕ
claimed ProducerPc.admitted = 1
claimed _ = 0

abbrev unannounced : ProducerPc → ℕ
unannounced ProducerPc.task_put = 1
unannounced _ = 0

-- a task that the consumer has claimed and not yet executed, or executed and not yet released
abbrev pending : ConsumerPc → ℕ
pending ConsumerPc.admitted = 1
pending _ = 0

abbrev unreleased : ConsumerPc → ℕ
unreleased ConsumerPc.task_executed = 1
unreleased _ = 0

module _ {D : Type 0} where
  write_cells-in :
      (n base i : ℕ) (values tab : ℕ → D)
      → i < n
      → write_cells n base values tab (base + i) ≡ values i
  unfolding write_cells
  write_cells-in zero base i values tab lt = ground arith
  write_cells-in (suc n) base i values tab lt = ground (arith, write_cells-in n base i values tab)

  write_cells-out :
      (n base c : ℕ) (values tab : ℕ → D)
      → (c < base) ⊎ (base + n ≤ c)
      → write_cells n base values tab c ≡ tab c
  unfolding write_cells
  write_cells-out zero base c values tab out = refl
  write_cells-out (suc n) base c values tab out =
      ground (arith, write_cells-out n base c values tab)

  scan-same :
      (ops : Doubles D) (n i : ℕ) (v w : ℕ → D) (r : Report D)
      → ((j : ℕ) → j < i + n → v j ≡ w j)
      → scan ops n i v r ≡ scan ops n i w r
  unfolding scan
  scan-same ops zero i v w r same = refl
  scan-same ops (suc n) i v w r same =
      rw (same i (omega arith)) (scan-same ops n (suc i) v w _ λ j lt. same j (omega arith))

  task_report-same :
      (ops : Doubles D) (v w : ℕ → D)
      → ((j : ℕ) → j < task_length → v j ≡ w j)
      → task_report ops v ≡ task_report ops w
  unfolding task_report
  task_report-same ops v w same = rw (same 0 (omega arith)) (
      ap {A = Report D} (λ r. record r { avg = ops.over_length r.avg })
        (scan-same ops (task_length - 1) 1 v w _ λ j lt. same j (omega arith)))

-- Tasks less than ten apart lie in different slots.
apart_slots :
    (k p c i slot : ℕ)
    → slot ≡ p % task_tab_length
    → c ≤ k
    → k < p
    → p < c + task_tab_length
    → i < task_length
    → ((k % task_tab_length) * task_length + i < slot * task_length)
      ⊎ (slot * task_length + task_length ≤ (k % task_tab_length) * task_length + i)
apart_slots k p c i slot at from to room lt = elim (Bool-cases (ltb (k % task_tab_length) slot)) [
  | inl below ↦ inl (ground arith)
  | inr above ↦ inr (ground arith)
]

module _ {D : Type 0} (ops : Doubles D) (draw : ℕ → ℕ → D) where
  -- what a consumer prints that executes the first `n` tasks in their order
  unfoldable pub reports : ℕ → List (Report D)
  reports zero = []
  reports (suc n) = reports n ++ task_report ops (draw n) ∷ []

  -- The semaphores count the free and the filled slots, the slots follow the counters, and each
  -- task that is put and not executed is in its slot.
  pub record IsRing (s : Ring D) : Type 0 where
    pub free :
        s.sem_producer + claimed s.producer + s.producer_counter + unreleased s.consumer
        ≡ task_tab_length + s.consumer_counter
    pub filled :
        s.sem_consumer + pending s.consumer + s.consumer_counter + unannounced s.producer
        ≡ s.producer_counter
    pub slots :
        (s.producer_slot ≡ s.producer_counter % task_tab_length)
        × (s.consumer_slot ≡ s.consumer_counter % task_tab_length)
    pub tasks :
        (k i : ℕ)
        → s.consumer_counter ≤ k
        → k < s.producer_counter
        → i < task_length
        → s.task_tab ((k % task_tab_length) * task_length + i) ≡ draw k i
    pub in_order : s.printed ≡ reports s.consumer_counter

  abbrev Keeps : Option (Ring D) → Type 0
  Keeps none = Unit
  Keeps (some s) = IsRing s

  put_task-tasks :
      (s : Ring D)
      → IsRing s
      → s.producer ≡ ProducerPc.admitted
      → (k i : ℕ) → s.consumer_counter ≤ k
      → k < suc s.producer_counter
      → i < task_length
      → (put_task (draw s.producer_counter) s).task_tab ((k % task_tab_length) * task_length + i)
        ≡ draw k i
  unfolding put_task
  put_task-tasks s inv at k i from to lt = elim (Bool-cases (k == s.producer_counter)) [
    | inl new ↦
        rw (counter new, sym inv.slots.0)
          (write_cells-in task_length (s.producer_slot * task_length) i _ s.task_tab lt)
    | inr old ↦
        write_cells-out task_length (s.producer_slot * task_length) _ (draw s.producer_counter)
          s.task_tab
          (apart_slots k s.producer_counter s.consumer_counter i s.producer_slot inv.slots.0 from
            (ground arith) (ground (arith, inv.free)) lt)
        ∙ inv.tasks k i from (ground arith) lt
  ]
    where
      counter : (k == s.producer_counter) ≡ true → k ≡ s.producer_counter
      counter new = ground arith

  producer_act-Keeps :
      (p : ProducerPc) (s : Ring D) → s.producer ≡ p → IsRing s → Keeps (producer_act draw p s)
  unfolding producer_act put_task
  producer_act-Keeps ProducerPc.waiting s at inv = elim (Bool-cases (s.sem_producer == 0)) [
    | inl none_free ↦ rw (none_free, Keeps) tt
    | inr some_free ↦
        rw (some_free, Keeps)
          record {
            free = ground (arith, inv.free);
            filled = ground (arith, inv.filled);
            slots = inv.slots;
            tasks = inv.tasks;
            in_order = inv.in_order;
          }
  ]
  producer_act-Keeps ProducerPc.admitted s at inv = record {
    free = ground (arith, inv.free);
    filled = ground (arith, inv.filled);
    slots = (omega (arith, inv.slots.0), inv.slots.1);
    tasks = put_task-tasks s inv at;
    in_order = inv.in_order;
  }
  producer_act-Keeps ProducerPc.task_put s at inv = record {
    free = ground (arith, inv.free);
    filled = ground (arith, inv.filled);
    slots = inv.slots;
    tasks = inv.tasks;
    in_order = inv.in_order;
  }

  -- What the consumer prints is the report of the next task.
  execute_task-next :
      (s : Ring D)
      → IsRing s
      → s.consumer ≡ ConsumerPc.admitted
      → task_report ops (λ i. s.task_tab (s.consumer_slot * task_length + i))
        ≡ task_report ops (draw s.consumer_counter)
  execute_task-next s inv at = task_report-same ops _ (draw s.consumer_counter) λ j lt.
      rw inv.slots.1 (inv.tasks s.consumer_counter j (omega arith) (ground (arith, inv.filled)) lt)

  consumer_act-Keeps :
      (p : ConsumerPc) (s : Ring D) → s.consumer ≡ p → IsRing s → Keeps (consumer_act ops p s)
  unfolding consumer_act execute_task reports
  consumer_act-Keeps ConsumerPc.waiting s at inv = elim (Bool-cases (s.sem_consumer == 0)) [
    | inl none_filled ↦ rw (none_filled, Keeps) tt
    | inr some_filled ↦
        rw (some_filled, Keeps)
          record {
            free = ground (arith, inv.free);
            filled = ground (arith, inv.filled);
            slots = inv.slots;
            tasks = inv.tasks;
            in_order = inv.in_order;
          }
  ]
  consumer_act-Keeps ConsumerPc.admitted s at inv = record {
    free = ground (arith, inv.free);
    filled = ground (arith, inv.filled);
    slots = (inv.slots.0, omega (arith, inv.slots.1));
    tasks = λ k i from to lt. inv.tasks k i (omega arith) to lt;
    in_order = rw (execute_task-next s inv at, inv.in_order) refl;
  }
  consumer_act-Keeps ConsumerPc.task_executed s at inv = record {
    free = ground (arith, inv.free);
    filled = ground (arith, inv.filled);
    slots = inv.slots;
    tasks = inv.tasks;
    in_order = inv.in_order;
  }

  Keeps-step : (r : Option (Ring D)) {t : Ring D} → Keeps r → r ≡ some t → IsRing t
  Keeps-step none keeps e = ground arith
  Keeps-step (some s) {t} keeps e = subst IsRing (some-injective s t e) keeps

  -- In every reachable state the semaphores, the slots and the cells of the ring are as
  -- `IsRing` says.
  pub Reach-IsRing : {s : Ring D} → Reach ops draw s → IsRing s
  unfolding reports
  Reach-IsRing (start tab) = record {
    free = refl;
    filled = refl;
    slots = (refl, refl);
    tasks = λ k i from to lt. ground arith;
    in_order = refl;
  }
  Reach-IsRing (produce {s} r e) =
      Keeps-step (producer_act draw s.producer s)
        (producer_act-Keeps s.producer s refl (Reach-IsRing r)) e
  Reach-IsRing (consume {s} r e) =
      Keeps-step (consumer_act ops s.consumer s)
        (consumer_act-Keeps s.consumer s refl (Reach-IsRing r)) e

  -- In every reachable state the consumer has printed the reports of the tasks that the producer
  -- drew, each once and in their order, as many as it has counted; the producer is ahead by at most
  -- the ten tasks of the ring.
  pub printed-reports :
      {s : Ring D}
      → Reach ops draw s
      → (s.printed ≡ reports s.consumer_counter)
        × (s.consumer_counter ≤ s.producer_counter)
        × (s.producer_counter ≤ s.consumer_counter + task_tab_length)
  printed-reports r =
      let inv = Reach-IsRing r in (inv.in_order, omega (arith, inv.filled), omega (arith, inv.free))

  abbrev ProducerGoes : ProducerPc → Ring D → Type 0
  ProducerGoes p s = (t : Ring D) × (producer_act draw p s ≡ some t)

  abbrev ConsumerGoes : ConsumerPc → Ring D → Type 0
  ConsumerGoes p s = (t : Ring D) × (consumer_act ops p s ≡ some t)

  producer_waits :
      (p : ProducerPc) (s : Ring D)
      → ProducerGoes p s ⊎ ((s.sem_producer ≡ 0) × (p ≡ ProducerPc.waiting))
  unfolding producer_act
  producer_waits ProducerPc.waiting s = elim (Bool-cases (s.sem_producer == 0)) [
    | inl none_free ↦ inr (ground arith, refl)
    | inr some_free ↦ inl (
      record s { sem_producer = s.sem_producer - 1; producer = ProducerPc.admitted },
      rw some_free refl,
    )
  ]
  producer_waits ProducerPc.admitted s = inl (_, refl)
  producer_waits ProducerPc.task_put s = inl (_, refl)

  consumer_waits :
      (p : ConsumerPc) (s : Ring D)
      → ConsumerGoes p s ⊎ ((s.sem_consumer ≡ 0) × (p ≡ ConsumerPc.waiting))
  unfolding consumer_act
  consumer_waits ConsumerPc.waiting s = elim (Bool-cases (s.sem_consumer == 0)) [
    | inl none_filled ↦ inr (ground arith, refl)
    | inr some_filled ↦ inl (
      record s { sem_consumer = s.sem_consumer - 1; consumer = ConsumerPc.admitted },
      rw some_filled refl,
    )
  ]
  consumer_waits ConsumerPc.admitted s = inl (_, refl)
  consumer_waits ConsumerPc.task_executed s = inl (_, refl)

  -- the producer or the consumer is not blocked
  abbrev pub CanGoOn : Ring D → Type 0
  CanGoOn s = ProducerGoes s.producer s ⊎ ConsumerGoes s.consumer s

  -- There is no deadlock: in every reachable state the producer or the consumer can go on.
  pub Reach-CanGoOn : {s : Ring D} → Reach ops draw s → CanGoOn s
  Reach-CanGoOn {s} r = elim (producer_waits s.producer s) [
    | inl goes ↦ inl goes
    | inr full ↦ elim (consumer_waits s.consumer s) [
      | inl goes ↦ inr goes
      | inr drained ↦ let inv = Reach-IsRing r in ground (arith, inv.free, inv.filled)
    ]
  ]
