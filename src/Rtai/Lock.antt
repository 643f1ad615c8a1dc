-- ===== src/Rtai/Lock.antt =====
-- The locking functions of sys/rtai/src/lock.c. The results of RTAI's functions are arguments:
-- `timed k` is the result of the k-th timed call, with the time URT_LOCK_STOP_MAX_DELAY.
use urt.Base.{ℕ, zero, suc, ◌+◌, Bool, not, Option, none, some, ◌&&◌, if◌then◌else◌}
use urt.Base.Int.{ℤ, pos, ltb_ℤ}
use urt.Global.{Errno, einval, ebusy, etimedout, ecanceled, edeadlk, Result, ok, err}

abbrev pub eq_ℤ : ℤ → ℤ → Bool
eq_ℤ a b = not (ltb_ℤ a b) && not (ltb_ℤ b a)

-- `res == 0?0:EDEADLK`
unfoldable pub lock_result : ℤ → Option Errno
lock_result res = if eq_ℤ res (pos 0) then none else some edeadlk

-- `res == 0?0:EINVAL`
unfoldable pub unlock_result : ℤ → Option Errno
unlock_result res = if eq_ℤ res (pos 0) then none else some einval

-- What the caller is told of the result that the wait ended with.
unfoldable pub told : (ℤ → Option Errno) → Option (Result ℤ) → Option (Option Errno)
told result none = none
told result (some (ok res)) = some (result res)
told result (some (err e)) = some (some e)

-- urt_rwlock_try_read_lock
unfoldable pub rwlock_try_read_lock : ℤ → Option Errno
rwlock_try_read_lock res = if eq_ℤ res (pos 0) then none else some ebusy

-- urt_rwlock_try_write_lock
unfoldable pub rwlock_try_write_lock : ℤ → Option Errno
rwlock_try_write_lock res = if eq_ℤ res (pos 0) then none else some ebusy

-- urt_rwlock_read_unlock
unfoldable pub rwlock_read_unlock : ℤ → Option Errno
unfolding unlock_result
rwlock_read_unlock res = unlock_result res

-- urt_rwlock_write_unlock
unfoldable pub rwlock_write_unlock : ℤ → Option Errno
unfolding unlock_result
rwlock_write_unlock res = unlock_result res

-- RTE_BASE and RTE_TIMOUT.
module _ (rte_base rte_timout : ℤ) where
  -- `res >= RTE_BASE?EINVAL:0`; `none` is 0.
  unfoldable pub sem_result : ℤ → Option Errno
  sem_result res = if not (ltb_ℤ res rte_base) then some einval else none

  -- `while ((res = timed()) == RTE_TIMOUT) if (stop(data)) return ECANCELED;`
  -- The outer `none`: out of fuel.
  unfoldable pub stop_loop : (ℕ → Bool) → (ℕ → ℤ) → ℕ → ℕ → Option (Result ℤ)
  stop_loop stop timed zero k = none
  stop_loop stop timed (suc fuel) k =
      let rest = stop_loop stop timed fuel (k + 1) in
      if eq_ℤ (timed k) rte_timout
      then (if stop k then some (err ecanceled) else rest)
      else some (ok (timed k))

  -- `stop` is `none` for NULL; `wait` is the result of the call without a time.
  unfoldable pub stoppable : Option (ℕ → Bool) → (ℕ → ℤ) → ℤ → ℕ → Option (Result ℤ)
  stoppable none timed wait fuel = some (ok wait)
  stoppable (some stop) timed wait fuel = stop_loop stop timed fuel 0

  -- urt_sem_waitf
  unfoldable pub sem_waitf : Option (ℕ → Bool) → (ℕ → ℤ) → ℤ → ℕ → Option (Option Errno)
  unfolding told sem_result stoppable
  sem_waitf stop timed wait fuel = told sem_result (stoppable stop timed wait fuel)

  -- urt_sem_timed_wait
  unfoldable pub sem_timed_wait : ℤ → Option Errno
  unfolding sem_result
  sem_timed_wait res = if eq_ℤ res rte_timout then some etimedout else sem_result res

  -- urt_sem_try_wait
  unfoldable pub sem_try_wait : ℤ → Option Errno
  unfolding sem_result
  sem_try_wait res = if not (ltb_ℤ (pos 0) res) then some ebusy else sem_result res

  -- urt_sem_post
  unfoldable pub sem_post : ℤ → Option Errno
  unfolding sem_result
  sem_post res = sem_result res

  -- urt_mutex_lockf
  unfoldable pub mutex_lockf : Option (ℕ → Bool) → (ℕ → ℤ) → ℤ → ℕ → Option (Option Errno)
  unfolding sem_waitf
  mutex_lockf stop timed wait fuel = sem_waitf stop timed wait fuel

  -- urt_mutex_timed_lock
  unfoldable pub mutex_timed_lock : ℤ → Option Errno
  unfolding sem_timed_wait
  mutex_timed_lock res = sem_timed_wait res

  -- urt_mutex_try_lock
  unfoldable pub mutex_try_lock : ℤ → Option Errno
  unfolding sem_try_wait
  mutex_try_lock res = sem_try_wait res

  -- urt_mutex_unlock
  unfoldable pub mutex_unlock : ℤ → Option Errno
  unfolding sem_post
  mutex_unlock res = sem_post res

  -- urt_rwlock_read_lockf
  unfoldable pub rwlock_read_lockf : Option (ℕ → Bool) → (ℕ → ℤ) → ℤ → ℕ → Option (Option Errno)
  unfolding told lock_result stoppable
  rwlock_read_lockf stop timed lock fuel = told lock_result (stoppable stop timed lock fuel)

  -- urt_rwlock_write_lockf
  unfoldable pub rwlock_write_lockf : Option (ℕ → Bool) → (ℕ → ℤ) → ℤ → ℕ → Option (Option Errno)
  unfolding told lock_result stoppable
  rwlock_write_lockf stop timed lock fuel = told lock_result (stoppable stop timed lock fuel)

  -- urt_rwlock_timed_read_lock
  unfoldable pub rwlock_timed_read_lock : ℤ → Option Errno
  unfolding unlock_result
  rwlock_timed_read_lock res = if eq_ℤ res rte_timout then some etimedout else unlock_result res

  -- urt_rwlock_timed_write_lock
  unfoldable pub rwlock_timed_write_lock : ℤ → Option Errno
  unfolding unlock_result
  rwlock_timed_write_lock res = if eq_ℤ res rte_timout then some etimedout else unlock_result res

  -- urt_cond_waitf
  unfoldable pub cond_waitf : Option (ℕ → Bool) → (ℕ → ℤ) → ℤ → ℕ → Option (Option Errno)
  unfolding told lock_result stoppable
  cond_waitf stop timed wait fuel = told lock_result (stoppable stop timed wait fuel)

  -- urt_cond_timed_wait
  unfoldable pub cond_timed_wait : ℤ → Option Errno
  unfolding unlock_result
  cond_timed_wait res = if eq_ℤ res rte_timout then some etimedout else unlock_result res

  -- urt_cond_signal
  unfoldable pub cond_signal : ℤ → Option Errno
  unfolding sem_result
  cond_signal res = sem_result res

  -- urt_cond_broadcast
  unfoldable pub cond_broadcast : ℤ → Option Errno
  unfolding sem_result
  cond_broadcast res = sem_result res
