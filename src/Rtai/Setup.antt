-- ===== src/Rtai/Setup.antt =====
-- Joining and leaving on RTAI, sys/rtai/src/setup.c, sys/rtai/src/mem.c and urt_exit of
-- src/setup_common.c; and the clocks, priorities and ends of tasks, sys/rtai/include/urt_sys_time.h,
-- sys/rtai/include/urt_sys_task.h and sys/rtai/src/task.c.
use urt.Base.{
  ℕ, ◌+◌, ◌%◌, ◌^◌, ◌<◌, ◌≤◌, ◌≡◌, Bool, true, false, not, Option, none, some, List, [], ◌∷◌, ◌++◌,
  ◌&&◌, ltb, if◌then◌else◌, arith,
}
use urt.Base.Int.{ℤ, pos, ◌+ℤ◌, ◌-ℤ◌, ltb_ℤ}
use urt.Global.{Errno, ealready, World}
use urt.Setup.{SetupAnswers, Process, init, init_sys}

pub data SetupCall : Type 0 where
  allow_nonroot_hrt set_oneshot_mode start_timer lock_memory : SetupCall
  shm_free_global close_global_sem : SetupCall

-- urt_sys_init, which returns 0: the calls, in order, and whether the hard timer runs.
unfoldable pub sys_init : Bool → Bool → List SetupCall × Bool
sys_init in_kernel running = (
  (if in_kernel then [] else allow_nonroot_hrt ∷ [])
      ++ ((if running then [] else set_oneshot_mode ∷ start_timer ∷ [])
          ++ (if in_kernel then [] else lock_memory ∷ [])),
  true,
)

-- urt_global_mem_free: `urt_global_mem` is not reset.
unfoldable pub global_mem_free : Process → List SetupCall × Process
global_mem_free p = (shm_free_global ∷ [], p)

-- urt_exit in user space; `opened` is whether the file of the global semaphore is open.
unfoldable pub exit : Bool → Process → List SetupCall × Process
unfolding global_mem_free
exit opened p =
    if p.has_mem
    then (
      (global_mem_free p).0 ++ (if opened then close_global_sem ∷ [] else []),
      (global_mem_free p).1,
    )
    else ([], p)

-- urt_get_time
unfoldable pub get_time : ℕ → ℤ → ℤ
get_time ns offset = pos ns +ℤ offset

-- urt_get_exec_time; `none`: there is no RTAI task. `count2nano` is RTAI's.
unfoldable pub get_exec_time : (ℕ → ℕ) → Option ℕ → ℕ
get_exec_time count2nano none = 0
get_exec_time count2nano (some exectime) = count2nano exectime

-- urt_task_next_period and urt_task_period_time_left
unfoldable pub task_next_period : (ℕ → ℕ) → ℕ → ℤ
task_next_period count2nano next = pos (count2nano next)

unfoldable pub task_period_time_left : (ℕ → ℕ) → ℕ → ℤ → ℤ
unfolding task_next_period
task_period_time_left count2nano next now = task_next_period count2nano next -ℤ now

pub data EndCall : Type 0 where
  task_delete_call thread_join mem_delete_call : EndCall

-- urt_task_delete; `exists`: the pointer is not NULL.
unfoldable pub task_delete : Bool → Bool → List EndCall
task_delete in_kernel exists =
    (if exists then task_delete_call ∷ (if in_kernel then [] else thread_join ∷ []) else [])
    ++ (mem_delete_call ∷ [])

-- urt_task_start in user space, for a task that is not NULL: what rt_thread_create gives, 0 for a
-- failure, and errno.
unfoldable pub user_start : ℕ → Errno → Option Errno
user_start tid errno = if ltb 0 tid then none else some errno

-- URT_MAX_PRIORITY; `highest` and `lowest` are RTAI's RT_SCHED_HIGHEST_PRIORITY and
-- RT_SCHED_LOWEST_PRIORITY.
abbrev pub max_priority : ℕ → ℕ
max_priority highest = highest + 1

-- urt_priority_is_valid
unfoldable pub priority_is_valid : ℕ → ℕ → ℤ → Bool
priority_is_valid highest lowest p = not (ltb_ℤ (pos lowest) p) && not (ltb_ℤ p (pos highest))

-- An `unsigned int` that becomes an `int`.
unfoldable pub to_int : ℕ → ℤ
to_int u = if ltb u (2 ^ 31) then pos u else pos u -ℤ pos (2 ^ 32)

-- urt_priority: URT_MORE_PRIORITY is -1, and `n` is unsigned, so that its product with it is
-- 2 ^ 32 - n.
unfoldable pub priority : ℕ → ℕ → ℤ
unfolding to_int
priority highest n = to_int ((max_priority highest + n) % 2 ^ 32)

-- urt_priority_is_higher
unfoldable pub priority_is_higher : ℤ → ℤ → Bool
priority_is_higher a b = ltb_ℤ a b

-- How often the calls free the global memory.
abbrev pub frees : List SetupCall → ℕ
frees [] = 0
frees (shm_free_global ∷ cs) = frees cs + 1
frees (allow_nonroot_hrt ∷ cs) = frees cs
frees (set_oneshot_mode ∷ cs) = frees cs
frees (start_timer ∷ cs) = frees cs
frees (lock_memory ∷ cs) = frees cs
frees (close_global_sem ∷ cs) = frees cs

-- On RTAI, whose priorities are nonnegative 32-bit numbers, urt_priority gives valid priorities up to
-- the lowest one, and each is higher than those of greater numbers.
pub priority_descends :
    (highest lowest n k : ℕ)
    → lowest < 2 ^ 31
    → n < k
    → highest + 1 + k ≤ lowest
    → (priority_is_valid highest lowest (priority highest n) ≡ true)
      × (priority_is_valid highest lowest (priority highest k) ≡ true)
      × (priority_is_higher (priority highest n) (priority highest k) ≡ true)
      × (priority_is_higher (priority highest k) (priority highest n) ≡ false)
unfolding priority to_int priority_is_valid priority_is_higher
priority_descends highest lowest n k l h b = ground arith

-- After urt_exit on RTAI in user space, a process that had joined has freed the global memory, but still
-- counts as joined: urt_init, once RTAI is set up, answers EALREADY and changes nothing, and another
-- urt_exit frees the memory once more.
pub exit_stays_joined :
    (os : SetupAnswers) (opened again : Bool) (p : Process) (w : World)
    → os.sys_error ≡ none
    → p.has_mem ≡ true
    → (frees (exit opened p).0 ≡ 1)
      × (init os (exit opened p).1 w ≡ some ((some ealready, (exit opened p).1), w))
      × (frees (exit again (exit opened p).1).0 ≡ 1)
unfolding exit init init_sys
exit_stays_joined os opened again p w s j = ground arith
