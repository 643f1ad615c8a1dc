-- ===== src/Task/Start.antt =====
-- New tasks have valid attributes, and starting one releases what it acquires.
use urt.Base.{
  ℕ, ◌+◌, ◌<◌, ◌≡◌, refl, ◌⊎◌, inl, inr, Bool, true, false, Option, none, some, List, [], ◌∷◌,
  arith,
}
use urt.Base.Int.{pos, ◌≤ℤ◌}
use urt.Global.{Errno, ok}
use urt.Task.{
  Attr, Task, priority_is_valid, chosen_attr, task_new, ThreadCall, attr_init, attr_destroy,
  set_stack_size, create, task_start,
}

-- Attributes that the thread library accepts.
pub record IsUsable (a : Attr) : Type 0 where
  pub period_ok : pos 0 ≤ℤ a.period
  pub start_ok : pos 0 ≤ℤ a.start_time
  pub stack_ok : 0 < a.stack_size
  pub priority_ok : priority_is_valid a.priority ≡ true

chosen_attr-IsUsable :
    (default_stack_size : ℕ) (attr : Option Attr)
    → 0 < default_stack_size
    → IsUsable (chosen_attr default_stack_size attr)
unfolding chosen_attr priority_is_valid
chosen_attr-IsUsable d none h = record {
  period_ok = omega arith;
  start_ok = omega arith;
  stack_ok = h;
  priority_ok = refl;
}
chosen_attr-IsUsable d (some a) h = record {
  period_ok = ground arith;
  start_ok = ground arith;
  stack_ok = ground arith;
  priority_ok = ground arith;
}

-- Whatever attributes a caller gives, a task that `urt_task_new` returns has no negative time, a
-- stack, and a valid priority.
pub task_new-IsUsable :
    (default_stack_size : ℕ) (allocated : Bool) (func arg : ℕ) (attr : Option Attr) (t : Task)
    → 0 < default_stack_size
    → task_new default_stack_size allocated func arg attr ≡ ok t
    → IsUsable t.attr × (t.next_period_calculated ≡ false)
unfolding task_new
task_new-IsUsable d true func arg attr t h e =
    let et : t.attr ≡ chosen_attr d attr = cc in (rw et (chosen_attr-IsUsable d attr h), cc)
task_new-IsUsable d false func arg attr t h e = absurd (cc)

abbrev count_init : List ThreadCall → ℕ
count_init [] = 0
count_init (attr_init ∷ cs) = count_init cs + 1
count_init (_ ∷ cs) = count_init cs

abbrev count_destroy : List ThreadCall → ℕ
count_destroy [] = 0
count_destroy (attr_destroy ∷ cs) = count_destroy cs + 1
count_destroy (_ ∷ cs) = count_destroy cs

-- `urt_task_start` reports a missing task, and the error of the first call to the thread library that
-- fails; it creates a thread only with initialised attributes of the task's stack size, and destroys
-- the attributes exactly when it initialised them without error.
pub task_start_lem :
    (task : Task) (init_error create_error : Option Errno)
    → (((e : Errno) × (init_error ≡ some e))
        × (task_start (some task) init_error create_error ≡ (init_error, attr_init ∷ [])))
      ⊎ ((init_error ≡ none)
          × ((task_start (some task) init_error create_error).0 ≡ create_error)
          × (count_init (task_start (some task) init_error create_error).1
              ≡ count_destroy (task_start (some task) init_error create_error).1)
          × ((task_start (some task) init_error create_error).1
              ≡ attr_init ∷ set_stack_size task.attr.stack_size ∷ create ∷ attr_destroy ∷ []))
unfolding task_start
task_start_lem task (some e) create_error = inl ((e, refl), refl)
task_start_lem task none create_error = inr (refl, refl, refl, refl)
