-- ===== src/Glue.antt =====
-- URT_GLUE and URT_GLUE_NO_INTERRUPT of include/urt_setup.h: the life of an application, as a
-- program of user space and as a kernel module. What the application's init returns, and what the looks
-- at its variable `done` read, are arguments.
pub mod Life
use urt.Base.{
  ℕ, zero, suc, ◌+◌, Bool, true, false, Option, none, some, List, [], ◌∷◌, ◌&&◌, ◌||◌,
  if◌then◌else◌,
}
use urt.Global.{Errno}
use urt.Convert.{Libc, Value}
use urt.Param.{Param, parse_args, free_args}

-- The application's functions, as they are called.
pub data AppCall : Type 0 where
  init body exit : AppCall

-- `while (!done)` and its sleep: the number of sleeps; `none`: out of fuel.
unfoldable pub wait_done : (ℕ → Bool) → ℕ → ℕ → Option ℕ
wait_done done zero k = none
wait_done done (suc fuel) k =
    let rest = wait_done done fuel (k + 1) in if done k then some k else rest

abbrev pub is_error : Option Errno → Bool
is_error none = false
is_error (some e) = true

-- Behind a successful init: body, the wait, and exit.
unfoldable pub after_body : Option ℕ → Option (Option Errno × List AppCall)
after_body none = none
after_body (some sleeps) = some (none, init ∷ body ∷ exit ∷ [])

-- From init up to `exit_cleanup`: err, and the calls in order.
unfoldable pub main_init : Option Errno → Option ℕ → Option (Option Errno × List AppCall)
unfolding after_body
main_init (some e) waited = some (some e, init ∷ [])
main_init none waited = after_body waited

-- `exit_cleanup`
unfoldable pub cleanup :
    List Param
    → Option (Option Errno × List AppCall)
    → Option (Option Errno × List AppCall × List Value)
unfolding free_args
cleanup ps none = none
cleanup ps (some (e, calls)) = some (e, calls, free_args ps)

-- `main` behind urt_parse_args, which returns -1 where the help was shown, and otherwise the error.
unfoldable pub main_parsed :
    Option Errno
    → Option ℕ
    → Option (List Param × Option Errno × Bool)
    → Option (Option Errno × List AppCall × List Value)
unfolding main_init cleanup
main_parsed init_error waited none = none
main_parsed init_error waited (some (ps, e, help)) =
    cleanup ps (if help || is_error e then some (e, []) else main_init init_error waited)

-- `main` of URT_GLUE: what it returns, the calls, and what is freed.
unfoldable pub main :
    Libc
    → List Param
    → List (List ℕ)
    → Option Errno
    → (ℕ → Bool)
    → ℕ
    → Option (Option Errno × List AppCall × List Value)
unfolding parse_args main_parsed wait_done
main c ps args init_error done fuel =
    main_parsed init_error (wait_done done fuel 0) (parse_args c ps args)

-- `main` of URT_GLUE_NO_INTERRUPT does not wait.
unfoldable pub main_no_interrupt :
    Libc
    → List Param
    → List (List ℕ)
    → Option Errno
    → Option (Option Errno × List AppCall × List Value)
unfolding parse_args main_parsed
main_no_interrupt c ps args init_error = main_parsed init_error (some 0) (parse_args c ps args)

-- What kthread_run gives.
pub data Thread : Type 0 where
  started : Thread
  no_memory : Thread
  failed : Errno → Thread

-- Whether body is run: by the thread, or by init itself where there is no memory for one.
unfoldable pub runs_body : Thread → Bool
runs_body started = true
runs_body no_memory = true
runs_body (failed e) = false

-- `urt_app_init_`: the error, and the calls, with the thread's.
unfoldable pub app_init : Option Errno → Thread → Option Errno × List AppCall
unfolding runs_body
app_init (some e) thread = (some e, init ∷ [])
app_init none thread = (none, init ∷ (if runs_body thread then body ∷ [] else []))

-- `urt_app_exit_` of URT_GLUE, which the kernel calls when it unloads a module that was loaded; only
-- body sets `done`.
unfoldable pub app_exit : Thread → (ℕ → Bool) → ℕ → Option (List AppCall)
unfolding wait_done runs_body
app_exit thread done fuel = elim (wait_done (λ k. runs_body thread && done k) fuel 0) [
  | none ↦ none
  | some sleeps ↦ some (exit ∷ [])
]
