-- ===== src/Task/Period.antt =====
-- The releases of a periodic task.
use urt.Base.{
  ℕ, suc, ◌+◌, ◌*◌, ◌<◌, ◌≤◌, ◌≡◌, ◌⊎◌, inl, inr, ap, ◌∙◌, ◌-◌, true, false, none, some, Option,
  List, [], ◌∷◌, if◌then◌else◌, arith,
}
use urt.Base.Int.{ℤ, pos, ◌+ℤ◌, ◌-ℤ◌, ◌≤ℤ◌, pos_part, neg_part, int_laws}
use urt.Time.{Sleep, sleep}
use urt.Time.Laws.{Sleeps, returns, slept, sleep-Sleeps}
use urt.Time.Laws
use urt.Task.{with_start, Task, update_start_time, task_wait_period, task_next_period}

+ℤ_pos : (a b : ℕ) → pos a +ℤ pos b ≡ pos (a + b)
unfolding ◌+ℤ◌
+ℤ_pos a b = ground arith

wake :
    (start now : ℤ)
    → start ≤ℤ now +ℤ pos (4294967296 * 1000000000 - 1000000000)
    → ((sleep (start -ℤ now) ≡ none) × (start ≤ℤ now))
      ⊎ ((z : Sleep) × (sleep (start -ℤ now) ≡ some z) × (start ≤ℤ now +ℤ pos (slept z)))
wake start now h = from (sleep-Sleeps (start -ℤ now) (omega int_laws))
  where
    from :
        {r : Option Sleep}
        → Sleeps (start -ℤ now) r
        → ((r ≡ none) × (start ≤ℤ now))
          ⊎ ((z : Sleep) × (r ≡ some z) × (start ≤ℤ now +ℤ pos (slept z)))
    from (returns n e) = inl (e, omega int_laws)
    from (Laws.waits n z q h0 e le lt us) =
        inr (z, e, omega (int_laws, ap pos_part q, ap neg_part q))

-- Until the task waits, asking again for the next period, at any time, gives the same answer and
-- changes nothing.
pub task_next_period_again :
    (cur later : ℤ) (task : Task)
    → task_next_period later (task_next_period cur task).0 ≡ task_next_period cur task
unfolding task_next_period update_start_time
task_next_period_again cur later task = ground arith

-- What the task does with its period: asking for the next one, or waiting for it. The clock's
-- readings come with each call.
pub data Event : Type 0 where
  asks : ℤ → Event
  waits : ℤ → ℤ → Event

abbrev pub after : Event → Task → Task
after (asks cur) task = (task_next_period cur task).0
after (waits cur now) task = (task_wait_period cur now task).0

abbrev pub run : List Event → Task → Task
run [] task = task
run (e ∷ es) task = run es (after e task)

abbrev pub count_waits : List Event → ℕ
count_waits [] = 0
count_waits (asks cur ∷ es) = count_waits es
count_waits (waits cur now ∷ es) = suc (count_waits es)

-- The releases that a task may still move on by before it waits.
abbrev pub credit : Task → ℕ
credit task = if task.next_period_calculated then 0 else 1

module _ (p s : ℕ) (positive : 0 < p) where
  -- The task is at its `m`-th release.
  pub record IsAt (m : ℕ) (task : Task) : Type 0 where
    pub period_is : task.attr.period ≡ pos p
    pub start_is : task.attr.start_time ≡ pos (s + m * p)

  moved : Task → Task
  moved task = record (with_start task (task.attr.start_time +ℤ task.attr.period)) {
    next_period_calculated = true;
  }

  marked : Task → Task
  marked task = record task { next_period_calculated = true }

  update_cases :
      (cur : ℤ) (m : ℕ) (task : Task)
      → IsAt m task
      → ((task.next_period_calculated ≡ true) × (update_start_time cur task ≡ task))
        ⊎ ((task.next_period_calculated ≡ false) × (update_start_time cur task ≡ marked task))
        ⊎ ((task.next_period_calculated ≡ false) × (update_start_time cur task ≡ moved task))
  unfolding update_start_time marked moved
  update_cases cur m task a = ground arith

  moved-IsAt : (m : ℕ) (task : Task) → IsAt m task → IsAt (suc m) (moved task)
  unfolding moved
  moved-IsAt m task a = record {
    period_is = a.period_is;
    start_is = rw (a.start_is, a.period_is) (+ℤ_pos (s + m * p) p ∙ ap pos (omega arith));
  }

  update_lem :
      (cur : ℤ) (m : ℕ) (task : Task)
      → IsAt m task
      → (k : ℕ) × IsAt k (update_start_time cur task)
        × (k + credit (update_start_time cur task) ≤ m + credit task)
  unfolding moved marked
  update_lem cur m task a = elim (update_cases cur m task a) [
    | inl (f, e) ↦ (m, rw e a, rw e (omega arith))
    | inr (inl (f, e)) ↦ (
      m,
      rw e (record { period_is = a.period_is; start_is = a.start_is }),
      rw (e, f) (omega arith),
    )
    | inr (inr (f, e)) ↦ (suc m, rw e (moved-IsAt m task a), rw (e, f) (omega arith))
  ]

  after_lem :
      (e : Event) (m : ℕ) (task : Task)
      → IsAt m task
      → (k : ℕ) × IsAt k (after e task)
        × (k + credit (after e task) ≤ m + credit task + count_waits (e ∷ []))
  unfolding task_next_period task_wait_period
  after_lem (asks cur) m task a = let u = update_lem cur m task a in (u.0, u.1, omega (arith, u.2))
  after_lem (waits cur now) m task a =
      let u = update_lem cur m task a in
      (u.0, record { period_is = u.1.period_is; start_is = u.1.start_is }, omega (arith, u.2))

  run_lem :
      (es : List Event) (m : ℕ) (task : Task)
      → IsAt m task
      → (k : ℕ) × IsAt k (run es task)
        × (k + credit (run es task) ≤ m + credit task + count_waits es)
  run_lem [] m task a = (m, a, omega arith)
  run_lem (asks cur ∷ es) m task a =
      let u = after_lem (asks cur) m task a in
      let v = run_lem es u.0 (after (asks cur) task) u.1 in (v.0, v.1, omega (arith, u.2, v.2))
  run_lem (waits cur now ∷ es) m task a =
      let u = after_lem (waits cur now) m task a in
      let v = run_lem es u.0 (after (waits cur now) task) u.1 in (v.0, v.1, omega (arith, u.2, v.2))

  -- However a periodic task asks for and waits for its periods, its releases stay on the grid of its
  -- first start time, and it moves on by at most one release more than it has waited.
  pub releases_on_grid :
      (es : List Event) (task : Task)
      → task.attr.period ≡ pos p
      → task.attr.start_time ≡ pos s
      → (k : ℕ) × ((run es task).attr.start_time ≡ pos (s + k * p)) × (k ≤ count_waits es + 1)
  releases_on_grid es task e f =
      let r = run_lem es 0 task (record { period_is = e; start_is = f ∙ ap pos (omega arith) }) in
      (r.0, r.1.start_is, omega (arith, r.2, credit-le task))
    where
      credit-le : (t : Task) → credit t ≤ 1
      credit-le t = ground arith

-- When `urt_task_wait_period` is back, the task's release has come: either it had come already, or
-- the task slept at least until then.
pub task_wait_period_wakes :
    (cur now : ℤ) (task : Task)
    → (task_wait_period cur now task).0.attr.start_time
      ≤ℤ now +ℤ pos (4294967296 * 1000000000 - 1000000000)
    → (((task_wait_period cur now task).1 ≡ none)
        × ((task_wait_period cur now task).0.attr.start_time ≤ℤ now))
      ⊎ ((z : Sleep) × ((task_wait_period cur now task).1 ≡ some z)
          × ((task_wait_period cur now task).0.attr.start_time ≤ℤ now +ℤ pos (slept z)))
unfolding task_wait_period
task_wait_period_wakes cur now task h = wake (update_start_time cur task).attr.start_time now h
