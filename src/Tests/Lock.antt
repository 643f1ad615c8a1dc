-- ===== src/Tests/Lock.antt =====
-- Instances for the locking loops.
use urt.Base.{ℕ, ◌-◌, ◌*◌, ◌≡◌, none, some, Option, arith}
use urt.Global.{Errno, ebusy, etimedout}
use urt.Time.{Timespec}
use urt.Lock.{lock_stop, mutex_lock}
use urt.Lock.Simulate.{minus_one, Try}
use urt.Lock.Stoppable.{Ends, posix_call, mutex_lock-Ends}

-- A flag that is set from the third look on.
abbrev flag : ℕ → ℕ
flag k = k - 1

abbrev times_out : ℕ → Timespec → Option Errno
times_out k t = some etimedout

mutex_lock-Ends_example :
    (r : Option Errno) × (mutex_lock 100 0 times_out none (some flag) 3 ≡ some r)
    × Ends (posix_call 100 0 times_out flag) (lock_stop flag) 2 r
mutex_lock-Ends_example =
    mutex_lock-Ends 100 0 times_out flag none 2 3 (omega arith) (λ e. absurd (omega (arith, e)))

-- The lock stays busy, and the time is over at the end of round 2.
abbrev busy_try : Try
busy_try = record { ret = some minus_one; errno = some ebusy }

abbrev clock : ℕ → ℕ
clock k = k * 10
