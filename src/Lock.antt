-- ===== src/Lock.antt =====
-- The locks of sys/posix/src/lock.c and src/lock_common.c. What the system answers is an argument:
-- `answer k` is the answer to the k-th call of the loop at hand, `none` standing for 0.
pub mod Wait
pub mod Stoppable
pub mod Retry
pub mod Make
pub mod Simulate
use urt.Base.{
  ℕ, zero, suc, ◌+◌, ◌*◌, Bool, true, false, not, Option, none, some, List, [], ◌∷◌, ◌++◌, ◌==◌,
  ltb, if◌then◌else◌,
}
use urt.Base.Int.{ℤ, pos, negsuc}
use urt.Global.{Errno, enomem, ebusy, eagain, eintr, etimedout, ecanceled, Result, ok, err}
use urt.Time.{Timespec, to_timespec}

abbrev pub is_etimedout : Option Errno → Bool
is_etimedout (some etimedout) = true
is_etimedout _ = false

abbrev pub is_eintr : Option Errno → Bool
is_eintr (some eintr) = true
is_eintr _ = false

abbrev pub is_ebusy : Option Errno → Bool
is_ebusy (some ebusy) = true
is_ebusy _ = false

-- The loop of the `f` functions that can be stopped: round `k`, with the deadline `t` so far.
-- `delay` is URT_LOCK_STOP_MAX_DELAY. The outer `none`: out of fuel.
unfoldable pub stop_loop :
    ℕ → (ℕ → Bool) → (ℕ → Timespec → Option Errno) → ℕ → ℕ → ℕ → Option (Option Errno)
stop_loop delay stop timed zero k t = none
stop_loop delay stop timed (suc fuel) k t =
    let res = timed k (to_timespec (t + delay)) in
    let rest = stop_loop delay stop timed fuel (k + 1) (t + delay) in
    if stop k
    then some (some ecanceled)
    else elim (is_etimedout res) [ true ↦ rest | false ↦ some res ]

-- A call that is made again while it is interrupted.
unfoldable pub retry_loop : (ℕ → Option Errno) → ℕ → ℕ → Option (Option Errno)
retry_loop call zero k = none
retry_loop call (suc fuel) k =
    let rest = retry_loop call fuel (k + 1) in
    elim (is_eintr (call k)) [ true ↦ rest | false ↦ some (call k) ]

-- urt_sem_waitf; `now` is the time since the epoch, `none` for `stop` is NULL.
unfoldable pub sem_waitf :
    ℕ
    → ℕ
    → (ℕ → Timespec → Option Errno)
    → (ℕ → Option Errno)
    → Option (ℕ → Bool)
    → ℕ
    → Option (Option Errno)
sem_waitf delay now timed wait none fuel = retry_loop wait fuel 0
sem_waitf delay now timed wait (some stop) fuel = stop_loop delay stop timed fuel 0 now

-- urt_sem_timed_wait
unfoldable pub sem_timed_wait : ℕ → ℕ → (ℕ → Timespec → Option Errno) → ℕ → Option (Option Errno)
sem_timed_wait now max_wait timed fuel =
    retry_loop (λ k. timed k (to_timespec (now + max_wait))) fuel 0

-- urt_sem_try_wait
unfoldable pub sem_try_wait : Option Errno → Option Errno
sem_try_wait none = none
sem_try_wait (some eagain) = some ebusy
sem_try_wait (some e) = some e

-- The functions on mutexes, reader-writer locks and conditions without a loop of retries.
unfoldable pub pthread_lockf :
    ℕ
    → ℕ
    → (ℕ → Timespec → Option Errno)
    → Option Errno
    → Option (ℕ → Bool)
    → ℕ
    → Option (Option Errno)
pthread_lockf delay now timed lock none fuel = some lock
pthread_lockf delay now timed lock (some stop) fuel = stop_loop delay stop timed fuel 0 now

unfoldable pub pthread_timed_lock : ℕ → ℕ → (Timespec → Option Errno) → Option Errno
pthread_timed_lock now max_wait timed = timed (to_timespec (now + max_wait))

-- urt_mutex_lockf
unfoldable pub mutex_lockf :
    ℕ
    → ℕ
    → (ℕ → Timespec → Option Errno)
    → Option Errno
    → Option (ℕ → Bool)
    → ℕ
    → Option (Option Errno)
mutex_lockf = pthread_lockf

-- urt_mutex_timed_lock
unfoldable pub mutex_timed_lock : ℕ → ℕ → (Timespec → Option Errno) → Option Errno
mutex_timed_lock = pthread_timed_lock

-- urt_rwlock_read_lockf
unfoldable pub rwlock_read_lockf :
    ℕ
    → ℕ
    → (ℕ → Timespec → Option Errno)
    → Option Errno
    → Option (ℕ → Bool)
    → ℕ
    → Option (Option Errno)
rwlock_read_lockf = pthread_lockf

-- urt_rwlock_write_lockf
unfoldable pub rwlock_write_lockf :
    ℕ
    → ℕ
    → (ℕ → Timespec → Option Errno)
    → Option Errno
    → Option (ℕ → Bool)
    → ℕ
    → Option (Option Errno)
rwlock_write_lockf = pthread_lockf

-- urt_rwlock_timed_read_lock
unfoldable pub rwlock_timed_read_lock : ℕ → ℕ → (Timespec → Option Errno) → Option Errno
rwlock_timed_read_lock = pthread_timed_lock

-- urt_rwlock_timed_write_lock
unfoldable pub rwlock_timed_write_lock : ℕ → ℕ → (Timespec → Option Errno) → Option Errno
rwlock_timed_write_lock = pthread_timed_lock

-- urt_cond_waitf
unfoldable pub cond_waitf :
    ℕ
    → ℕ
    → (ℕ → Timespec → Option Errno)
    → Option Errno
    → Option (ℕ → Bool)
    → ℕ
    → Option (Option Errno)
cond_waitf = pthread_lockf

-- urt_cond_timed_wait
unfoldable pub cond_timed_wait : ℕ → ℕ → (Timespec → Option Errno) → Option Errno
cond_timed_wait = pthread_timed_lock

-- `_lock_stop` of src/lock_common.c: what a read of the flag gives at the k-th call.
unfoldable pub lock_stop : (ℕ → ℕ) → ℕ → Bool
lock_stop flag k = not (flag k == 0)

-- `stop?_lock_stop:NULL`
unfoldable pub stop_of : Option (ℕ → ℕ) → Option (ℕ → Bool)
unfolding lock_stop
stop_of none = none
stop_of (some flag) = some (lock_stop flag)

-- urt_sem_wait
unfoldable pub sem_wait :
    ℕ
    → ℕ
    → (ℕ → Timespec → Option Errno)
    → (ℕ → Option Errno)
    → Option (ℕ → ℕ)
    → ℕ
    → Option (Option Errno)
sem_wait delay now timed wait stop fuel = sem_waitf delay now timed wait (stop_of stop) fuel

-- urt_mutex_lock
unfoldable pub mutex_lock :
    ℕ
    → ℕ
    → (ℕ → Timespec → Option Errno)
    → Option Errno
    → Option (ℕ → ℕ)
    → ℕ
    → Option (Option Errno)
mutex_lock delay now timed lock stop fuel = mutex_lockf delay now timed lock (stop_of stop) fuel

-- urt_rwlock_read_lock
unfoldable pub rwlock_read_lock :
    ℕ
    → ℕ
    → (ℕ → Timespec → Option Errno)
    → Option Errno
    → Option (ℕ → ℕ)
    → ℕ
    → Option (Option Errno)
rwlock_read_lock delay now timed lock stop fuel =
    rwlock_read_lockf delay now timed lock (stop_of stop) fuel

-- urt_rwlock_write_lock
unfoldable pub rwlock_write_lock :
    ℕ
    → ℕ
    → (ℕ → Timespec → Option Errno)
    → Option Errno
    → Option (ℕ → ℕ)
    → ℕ
    → Option (Option Errno)
rwlock_write_lock delay now timed lock stop fuel =
    rwlock_write_lockf delay now timed lock (stop_of stop) fuel

-- urt_cond_wait
unfoldable pub cond_wait :
    ℕ
    → ℕ
    → (ℕ → Timespec → Option Errno)
    → Option Errno
    → Option (ℕ → ℕ)
    → ℕ
    → Option (Option Errno)
cond_wait delay now timed lock stop fuel = cond_waitf delay now timed lock (stop_of stop) fuel

-- `while (destroy(l) == EBUSY) if (unlock(l)) break;`: the number of unlocks, `none` out of fuel.
unfoldable pub destroy_loop : (ℕ → Option Errno) → (ℕ → Option Errno) → ℕ → ℕ → Option ℕ
destroy_loop destroy unlock zero k = none
destroy_loop destroy unlock (suc fuel) k =
    let rest = destroy_loop destroy unlock fuel (k + 1) in
    elim (is_ebusy (destroy k)) [
      | false ↦ some k
      | true ↦ elim (unlock k) [ none ↦ rest | some e ↦ some (k + 1) ]
    ]

-- The functions that are one call of the thread library, whose result they return: urt_mutex_try_lock
-- and urt_mutex_unlock, urt_rwlock_try_read_lock, urt_rwlock_try_write_lock, urt_rwlock_read_unlock and
-- urt_rwlock_write_unlock, urt_cond_signal and urt_cond_broadcast.
unfoldable pub mutex_try_lock : Option Errno → Option Errno
mutex_try_lock answer = answer

unfoldable pub mutex_unlock : Option Errno → Option Errno
mutex_unlock answer = answer

unfoldable pub rwlock_try_read_lock : Option Errno → Option Errno
rwlock_try_read_lock answer = answer

unfoldable pub rwlock_try_write_lock : Option Errno → Option Errno
rwlock_try_write_lock answer = answer

unfoldable pub rwlock_read_unlock : Option Errno → Option Errno
rwlock_read_unlock answer = answer

unfoldable pub rwlock_write_unlock : Option Errno → Option Errno
rwlock_write_unlock answer = answer

unfoldable pub cond_signal : Option Errno → Option Errno
cond_signal answer = answer

unfoldable pub cond_broadcast : Option Errno → Option Errno
cond_broadcast answer = answer

-- urt_sem_post returns what sem_post does, which is 0 or -1; the error is in errno only.
unfoldable pub sem_post : Option Errno → ℤ
sem_post none = pos 0
sem_post (some e) = negsuc 0
