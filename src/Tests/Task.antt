-- ===== src/Tests/Task.antt =====
-- Instances for times and tasks.
use urt.Base.{ℕ, ◌+◌, ◌-◌, ◌*◌, ◌≤◌, ◌≡◌, refl, true, false, some, List, [], ◌∷◌, arith}
use urt.Base.Int.{pos, negsuc, ◌+ℤ◌, ◌≤ℤ◌, int_laws}
use urt.Global.{ok}
use urt.Task.{
  priority_is_valid, update_start_time, Attr, Task, task_new, chosen_attr, task_wait_period,
  task_next_period,
}
use urt.Task.Period.{Event, asks, waits, run, count_waits, releases_on_grid}

-- The caller gave a period, and otherwise values that are not valid.
abbrev odd_attr : Attr
odd_attr = record {
  period = pos 1000;
  start_time = negsuc 4;
  stack_size = 0;
  priority = pos 3;
  uses_fpu = false;
  soft = true;
}

abbrev attr_1000 : Attr
attr_1000 = record {
  period = pos 1000;
  start_time = pos 0;
  stack_size = 65536;
  priority = pos 0;
  uses_fpu = false;
  soft = true;
}

abbrev task_1000 : Task
task_1000 = record { attr = attr_1000; func = 7; arg = 9; next_period_calculated = false }

new_task : task_new 65536 true 7 9 (some odd_attr) ≡ ok task_1000
unfolding task_new chosen_attr priority_is_valid
new_task = refl

abbrev events : List Event
events = asks (pos 10) ∷ waits (pos 20) (pos 30) ∷ waits (pos 1500) (pos 1600) ∷ []

moved : (run events task_1000).attr.start_time ≡ pos 2000
unfolding task_next_period task_wait_period update_start_time ◌+ℤ◌
moved = refl

releases_on_grid_example :
    (k : ℕ) × ((run events task_1000).attr.start_time ≡ pos (0 + k * 1000))
    × (k ≤ count_waits events + 1)
releases_on_grid_example = releases_on_grid 1000 0 (omega arith) events task_1000 refl refl

reachable :
    (task_wait_period (pos 10) (pos 20) task_1000).0.attr.start_time
    ≤ℤ pos 20 +ℤ pos (4294967296 * 1000000000 - 1000000000)
unfolding task_wait_period update_start_time ◌+ℤ◌
reachable = omega int_laws
