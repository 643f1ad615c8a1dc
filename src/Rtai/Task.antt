-- ===== src/Rtai/Task.antt =====
-- Tasks of the RTAI back-end, sys/rtai/src/task.c and sys/rtai/include/urt_sys_task.h. Whether a call
-- succeeds is an argument.
use urt.Base.{
  ℕ, suc, ◌+◌, ◌≡◌, refl, Bool, true, false, not, List, [], ◌∷◌, ◌++◌, ◌&&◌, ◌||◌, if◌then◌else◌,
  arith,
}
use urt.Base.Int.{ℤ, pos, negsuc, ◌-ℤ◌, ltb_ℤ}
use urt.Task.{Attr, is_zero}

pub data TaskCall : Type 0 where
  init : ℤ → ℕ → TaskCall
  make_hard : TaskCall
  sleep : ℤ → TaskCall
  make_periodic : ℤ → ℤ → TaskCall
  run : TaskCall
  make_soft : TaskCall
  delete : TaskCall
  resume : TaskCall

-- The start time that is set if there is none.
abbrev pub started : ℤ → Attr → Attr
started now a = if is_zero a.start_time then record a { start_time = now } else a

abbrev pub align : ℤ → Attr → List TaskCall
align now a = if is_zero a.start_time then [] else sleep (a.start_time -ℤ now) ∷ []

-- From the end of the alignment to `exit_no_periodic`.
unfoldable pub run_periodic : Bool → Attr → List TaskCall
run_periodic periodic_ok a =
    if ltb_ℤ (pos 0) a.period
    then make_periodic a.start_time a.period ∷ (if periodic_ok then run ∷ [] else [])
    else run ∷ []

-- `_task_wrapper` in user space once rt_task_init_schmod gave the task.
unfoldable pub wrapped : Bool → ℤ → Attr → List TaskCall
unfolding run_periodic
wrapped periodic_ok now a =
    (if a.soft then [] else make_hard ∷ [])
    ++ (align now a ++ (run_periodic periodic_ok (started now a) ++ (make_soft ∷ delete ∷ [])))

-- `_task_wrapper` in user space: whether there is a free name, a task and a period; the calls in order.
unfoldable pub task_wrapper : Bool → Bool → Bool → ℤ → Attr → List TaskCall
unfolding wrapped
task_wrapper named made periodic_ok now a =
    if named
    then init a.priority a.stack_size ∷ (if made then wrapped periodic_ok now a else [])
    else []

-- `_task_wrapper` in the kernel.
unfoldable pub kernel_wrapper : ℤ → Attr → Attr × List TaskCall
kernel_wrapper now a = (started now a, align now a ++ (run ∷ []))

-- ABS
unfoldable pub abs : ℤ → ℕ
abs (pos n) = n
abs (negsuc n) = suc n

-- urt_task_start in the kernel behind rt_task_init, whose result was 0: the result of the last call.
unfoldable pub kernel_begin : ℤ → ℤ → Attr → Attr × ℕ × List TaskCall
unfolding abs
kernel_begin now ret a =
    if ltb_ℤ (pos 0) a.period
    then (started now a, abs ret, make_periodic (started now a).start_time a.period ∷ [])
    else (a, abs ret, resume ∷ [])

-- urt_task_start in the kernel, for a task that is not NULL; `ret` is what rt_task_init returns.
unfoldable pub kernel_start : ℤ → ℤ → ℤ → Attr → Attr × ℕ × List TaskCall
unfolding kernel_begin abs
kernel_start now init_ret ret a =
    if is_zero init_ret
    then (
      (kernel_begin now ret a).0,
      (kernel_begin now ret a).1,
      init a.priority a.stack_size ∷ (kernel_begin now ret a).2,
    )
    else (a, abs init_ret, init a.priority a.stack_size ∷ [])

-- How often the task's function is called.
abbrev pub runs : List TaskCall → ℕ
runs [] = 0
runs (run ∷ cs) = runs cs + 1
runs (init p s ∷ cs) = runs cs
runs (make_hard ∷ cs) = runs cs
runs (sleep t ∷ cs) = runs cs
runs (make_periodic s p ∷ cs) = runs cs
runs (make_soft ∷ cs) = runs cs
runs (delete ∷ cs) = runs cs
runs (resume ∷ cs) = runs cs

runs-++ : (xs ys : List TaskCall) → runs (xs ++ ys) ≡ runs xs + runs ys
runs-++ [] ys = omega arith
runs-++ (init p s ∷ xs) ys = runs-++ xs ys
runs-++ (make_hard ∷ xs) ys = runs-++ xs ys
runs-++ (sleep t ∷ xs) ys = runs-++ xs ys
runs-++ (make_periodic s p ∷ xs) ys = runs-++ xs ys
runs-++ (run ∷ xs) ys = omega (arith, runs-++ xs ys)
runs-++ (make_soft ∷ xs) ys = runs-++ xs ys
runs-++ (delete ∷ xs) ys = runs-++ xs ys
runs-++ (resume ∷ xs) ys = runs-++ xs ys

-- In user space the task's function is called once if there is a free name, RTAI gives a task, and,
-- for a positive period, makes it periodic; otherwise it is not called.
pub task_wrapper-runs :
    (named made periodic_ok : Bool) (now : ℤ) (a : Attr)
    → runs (task_wrapper named made periodic_ok now a)
      ≡ (if named && made && (not (ltb_ℤ (pos 0) a.period) || periodic_ok) then 1 else 0)
unfolding task_wrapper wrapped run_periodic
task_wrapper-runs false made periodic_ok now a = refl
task_wrapper-runs true false periodic_ok now a = refl
task_wrapper-runs true true periodic_ok now a = ground (
  arith,
  runs-++ (if a.soft then [] else make_hard ∷ [])
      (align now a ++ (run_periodic periodic_ok (started now a) ++ (make_soft ∷ delete ∷ []))),
  runs-++ (align now a) (run_periodic periodic_ok (started now a) ++ (make_soft ∷ delete ∷ [])),
  runs-++ (run_periodic periodic_ok (started now a)) (make_soft ∷ delete ∷ []),
)
