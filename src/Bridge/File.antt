-- ===== src/Bridge/File.antt =====
-- The descriptor of the global semaphore's sysfs file in user space, src/lock_common.c. What open
-- answers is an argument.
use urt.Base.{
  ℕ, ◌≡◌, refl, ap, ◌∙◌, Option, none, some, List, [], ◌∷◌, ◌++◌, ◌==◌, if◌then◌else◌, arith,
}
use urt.Global.{Errno, Result, ok, err}

pub data FileCall : Type 0 where
  opened : ℕ → FileCall
  closed : ℕ → FileCall

-- `if (urt_global_sem >= 0) close(urt_global_sem);`, where `none` is -1.
unfoldable pub close_held : Option ℕ → List FileCall
close_held none = []
close_held (some fd) = closed fd ∷ []

-- The result of open: the error, the descriptor, and the call.
unfoldable pub open_answer : Result ℕ → Option Errno × Option ℕ × List FileCall
open_answer (ok fd) = (none, some fd, opened fd ∷ [])
open_answer (err e) = (some e, none, [])

-- urt_global_sem_get: the error, the descriptor, and the calls, in order.
unfoldable pub file_sem_get : Result ℕ → Option ℕ → Option Errno × Option ℕ × List FileCall
unfolding close_held open_answer
file_sem_get answer held =
    ((open_answer answer).0, (open_answer answer).1, close_held held ++ (open_answer answer).2)

-- urt_global_sem_free
unfoldable pub file_sem_free : Option ℕ → Option ℕ × List FileCall
unfolding close_held
file_sem_free held = (none, close_held held)

pub data FileOp : Type 0 where
  get : Result ℕ → FileOp
  free : FileOp

-- A sequence of calls of the two functions.
unfoldable pub file_run : List FileOp → Option ℕ → Option ℕ × List FileCall
unfolding file_sem_get file_sem_free
file_run [] held = (held, [])
file_run (get answer ∷ ops) held = (
  (file_run ops (file_sem_get answer held).1).0,
  (file_sem_get answer held).2 ++ (file_run ops (file_sem_get answer held).1).1,
)
file_run (free ∷ ops) held = (
  (file_run ops (file_sem_free held).0).0,
  (file_sem_free held).1 ++ (file_run ops (file_sem_free held).0).1,
)

-- The process's open descriptors of the file, newest first; `none`: one was closed that is not the
-- newest one that is open.
abbrev pub after_call : FileCall → Option (List ℕ) → Option (List ℕ)
after_call (opened fd) none = none
after_call (opened fd) (some fds) = some (fd ∷ fds)
after_call (closed fd) none = none
after_call (closed fd) (some []) = none
after_call (closed fd) (some (x ∷ fds)) = if fd == x then some fds else none

abbrev pub after_calls : List FileCall → Option (List ℕ) → Option (List ℕ)
after_calls [] fds = fds
after_calls (c ∷ cs) fds = after_calls cs (after_call c fds)

abbrev pub only : Option ℕ → List ℕ
only none = []
only (some fd) = fd ∷ []

after_calls-append :
    (xs ys : List FileCall) (fds : Option (List ℕ))
    → after_calls (xs ++ ys) fds ≡ after_calls ys (after_calls xs fds)
after_calls-append [] ys fds = refl
after_calls-append (x ∷ xs) ys fds = after_calls-append xs ys (after_call x fds)

after_close : (held : Option ℕ) → after_calls (close_held held) (some (only held)) ≡ some []
unfolding close_held
after_close none = refl
after_close (some fd) = ground arith

after_open :
    (answer : Result ℕ)
    → after_calls (open_answer answer).2 (some []) ≡ some (only (open_answer answer).1)
unfolding open_answer
after_open (ok fd) = refl
after_open (err e) = refl

after_get :
    (answer : Result ℕ) (held : Option ℕ)
    → after_calls (file_sem_get answer held).2 (some (only held))
      ≡ some (only (file_sem_get answer held).1)
unfolding file_sem_get
after_get answer held =
    after_calls-append (close_held held) (open_answer answer).2 (some (only held))
    ∙ (ap (after_calls (open_answer answer).2) (after_close held) ∙ after_open answer)

-- However often a process calls urt_global_sem_get and urt_global_sem_free in user space, and whatever
-- open answers, from the descriptor that it holds or none, every close is of the one descriptor that is
-- open, and what is open in the end is the descriptor that it holds, or none.
pub file_run_no_leak :
    (ops : List FileOp) (held : Option ℕ)
    → after_calls (file_run ops held).1 (some (only held)) ≡ some (only (file_run ops held).0)
unfolding file_run
file_run_no_leak [] held = refl
file_run_no_leak (get answer ∷ ops) held =
    let fd = (file_sem_get answer held).1 in
    after_calls-append (file_sem_get answer held).2 (file_run ops fd).1 (some (only held))
    ∙ (ap (after_calls (file_run ops fd).1) (after_get answer held) ∙ file_run_no_leak ops fd)
file_run_no_leak (free ∷ ops) held =
    after_calls-append (file_sem_free held).1 (file_run ops none).1 (some (only held))
    ∙ (ap (after_calls (file_run ops none).1) (after_close held) ∙ file_run_no_leak ops none)
