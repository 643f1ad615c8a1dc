-- ===== src/Task.antt =====
-- src/task_common.c, sys/posix/src/task.c and sys/posix/include/urt_sys_task.h: tasks and their
-- periods. The clock's readings, and what the thread library answers, are arguments.
pub mod Period
pub mod Start
use urt.Base.{
  ℕ, ◌+◌, ◌-◌, Bool, true, false, Option, none, some, List, [], ◌∷◌, ◌==◌, ◌||◌, ltb, if◌then◌else◌,
}
use urt.Base.Int.{ℤ, pos, negsuc, ◌+ℤ◌, ◌-ℤ◌, ltb_ℤ}
use urt.Global.{Errno, einval, enomem, Result, ok, err}
use urt.Time.{Sleep, sleep}

-- urt_task_attr
pub record Attr : Type 0 where
  pub period : ℤ
  pub start_time : ℤ
  pub stack_size : ℕ
  pub priority : ℤ
  pub uses_fpu : Bool
  pub soft : Bool

-- urt_task, less the thread's id. `func` and `data` are the caller's, and only passed on.
pub record Task : Type 0 where
  pub attr : Attr
  pub func : ℕ
  pub arg : ℕ
  pub next_period_calculated : Bool

-- URT_MAX_PRIORITY, URT_MIN_PRIORITY, URT_MORE_PRIORITY
abbrev pub max_priority : ℤ
max_priority = pos 0

abbrev pub min_priority : ℤ
min_priority = pos 0

-- urt_priority_is_valid
unfoldable pub priority_is_valid : ℤ → Bool
priority_is_valid (pos p) = p == 0
priority_is_valid (negsuc p) = false

-- urt_priority_is_higher
unfoldable pub priority_is_higher : ℤ → ℤ → Bool
priority_is_higher a b = ltb_ℤ b a

-- urt_priority: URT_MORE_PRIORITY is 0, so is its product with `n`.
unfoldable pub priority : ℕ → ℤ
priority n = max_priority -ℤ pos 0

-- The attributes of a task when the caller gives none.
abbrev pub default_attr : ℕ → Attr
default_attr default_stack_size = record {
  period = pos 0;
  start_time = pos 0;
  stack_size = default_stack_size;
  priority = min_priority;
  uses_fpu = false;
  soft = false;
}

-- The caller's attributes, where they are valid.
unfoldable pub merge_attr : Attr → Attr → Attr
merge_attr base a = record {
  period = if ltb_ℤ (pos 0) a.period then a.period else base.period;
  start_time = if ltb_ℤ (pos 0) a.start_time then a.start_time else base.start_time;
  stack_size = if ltb 0 a.stack_size then a.stack_size else base.stack_size;
  priority = if priority_is_valid a.priority then a.priority else base.priority;
  uses_fpu = a.uses_fpu;
  soft = a.soft;
}

unfoldable pub chosen_attr : ℕ → Option Attr → Attr
unfolding merge_attr
chosen_attr default_stack_size none = default_attr default_stack_size
chosen_attr default_stack_size (some a) = merge_attr (default_attr default_stack_size) a

-- urt_task_new; `allocated`: whether urt_mem_new gave memory.
unfoldable pub task_new : ℕ → Bool → ℕ → ℕ → Option Attr → Result Task
unfolding chosen_attr
task_new default_stack_size allocated func arg attr =
    if allocated
    then ok (record {
      attr = chosen_attr default_stack_size attr;
      func = func;
      arg = arg;
      next_period_calculated = false;
    })
    else err enomem

-- The calls of urt_task_start to the thread library.
pub data ThreadCall : Type 0 where
  attr_init attr_destroy : ThreadCall
  set_stack_size : ℕ → ThreadCall
  create : ThreadCall

-- urt_task_start: the return value (`none` is 0) and the calls made, in order. `none` is NULL.
unfoldable pub start_created : ℕ → Option Errno → Option Errno × List ThreadCall
start_created stack_size create_error =
    (create_error, attr_init ∷ set_stack_size stack_size ∷ create ∷ attr_destroy ∷ [])

unfoldable pub start_task : Task → Option Errno → Option Errno → Option Errno × List ThreadCall
unfolding start_created
start_task task (some e) create_error = (some e, attr_init ∷ [])
start_task task none create_error = start_created task.attr.stack_size create_error

unfoldable pub task_start :
    Option Task → Option Errno → Option Errno → Option Errno × List ThreadCall
unfolding start_task
task_start none init_error create_error = (some einval, [])
task_start (some task) init_error create_error = start_task task init_error create_error

abbrev pub is_zero : ℤ → Bool
is_zero (pos n) = n == 0
is_zero (negsuc n) = false

abbrev pub with_start : Task → ℤ → Task
with_start task t = record task { attr = record (task.attr) { start_time = t } }

-- `_task_wrapper` up to the call of the task's function: the task and the sleep.
unfoldable pub task_wrapper : ℤ → Task → Task × Option Sleep
task_wrapper now task =
    if is_zero task.attr.start_time
    then (with_start task now, none)
    else (task, sleep (task.attr.start_time -ℤ now))

-- `_update_start_time`; `cur` is what the clock shows if it is read.
unfoldable pub update_start_time : ℤ → Task → Task
update_start_time cur task =
    if ltb_ℤ (pos 0) task.attr.period
    then (if task.next_period_calculated
        then task
        else record (if ltb_ℤ task.attr.start_time cur
            then with_start task (task.attr.start_time +ℤ task.attr.period)
            else task) { next_period_calculated = true })
    else task

-- urt_task_wait_period; `now` is the second reading of the clock.
unfoldable pub task_wait_period : ℤ → ℤ → Task → Task × Option Sleep
task_wait_period cur now task = (
  record (update_start_time cur task) { next_period_calculated = false },
  sleep ((update_start_time cur task).attr.start_time -ℤ now),
)

-- urt_task_next_period
unfoldable pub task_next_period : ℤ → Task → Task × ℤ
task_next_period cur task =
    (update_start_time cur task, (update_start_time cur task).attr.start_time)

-- urt_task_period_time_left
unfoldable pub task_period_time_left : ℤ → ℤ → Task → Task × ℤ
unfolding task_next_period
task_period_time_left cur now task =
    ((task_next_period cur task).0, (task_next_period cur task).1 -ℤ now)

-- The calls of urt_task_delete: the thread is joined, unless the pointer is NULL, and the memory given
-- back.
pub data DeleteCall : Type 0 where
  join_thread delete_memory : DeleteCall

unfoldable pub task_delete : Option Task → List DeleteCall
task_delete none = delete_memory ∷ []
task_delete (some task) = join_thread ∷ delete_memory ∷ []
