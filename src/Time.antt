-- ===== src/Time.antt =====
-- sys/posix/include/urt_sys_time.h and the time arithmetic of sys/posix/src/lock.c. Times are
-- nanoseconds in a `long long`; they are taken to stay in its range.
pub mod Laws
use urt.Base.{ℕ, ◌+◌, ◌*◌, ◌/◌, ◌%◌, ◌^◌, Bool, Option, none, some, ◌==◌, if◌then◌else◌}
use urt.Base.Int.{ℤ, pos, negsuc, ◌+ℤ◌}

-- struct timespec
pub record Timespec : Type 0 where
  pub sec : ℕ
  pub nsec : ℕ

-- `t.tv_sec * 1000000000ll + t.tv_nsec`
unfoldable pub of_timespec : Timespec → ℕ
of_timespec t = t.sec * 1000000000 + t.nsec

-- `tp.tv_sec = t / 1000000000ll; tp.tv_nsec = t % 1000000000ll;`
unfoldable pub to_timespec : ℕ → Timespec
to_timespec t = record { sec = t / 1000000000; nsec = t % 1000000000 }

-- urt_get_time: the monotonic clock, shifted by `urt_time_offset`.
unfoldable pub get_time : Timespec → ℤ → ℤ
unfolding of_timespec
get_time clock offset = pos (of_timespec clock) +ℤ offset

-- urt_get_time_epoch
unfoldable pub get_time_epoch : Timespec → ℕ
unfolding of_timespec
get_time_epoch clock = of_timespec clock

-- The arguments of sleep (an `unsigned int`) and usleep.
pub record Sleep : Type 0 where
  pub seconds : ℕ
  pub micros : ℕ

unfoldable pub sleep_micros : ℕ → Sleep
sleep_micros t = record { seconds = t / 1000000 % 2 ^ 32; micros = t % 1000000 }

-- urt_sleep; `none`: it returns at once.
unfoldable pub sleep : ℤ → Option Sleep
unfolding sleep_micros
sleep (negsuc t) = none
sleep (pos t) = if t == 0 then none else some (sleep_micros ((t + 999) / 1000))

-- urt_get_exec_time; `thread_clock`: whether there is a clock of the thread's own time, otherwise it is
-- urt_get_time.
unfoldable pub get_exec_time : Option Timespec → Timespec → ℤ → ℤ
unfolding of_timespec get_time
get_exec_time (some t) clock offset = pos (of_timespec t)
get_exec_time none clock offset = get_time clock offset
