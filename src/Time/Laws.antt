-- ===== src/Time/Laws.antt =====
-- Times are split without loss, and sleeps are rounded up.
use urt.Base.{ℕ, zero, suc, ◌-◌, ◌+◌, ◌*◌, ◌/◌, ◌%◌, ◌<◌, ◌≤◌, ◌≡◌, refl, none, some, Option, arith}
use urt.Base.Int.{ℤ, pos, negsuc, ◌≤ℤ◌}
use urt.Time.{of_timespec, to_timespec, Sleep, sleep}

-- A time that is split for the system calls is read back as the same time, and the nanoseconds are
-- in the range that the calls accept.
pub to_timespec_lem :
    (t : ℕ) → (of_timespec (to_timespec t) ≡ t) × ((to_timespec t).nsec < 1000000000)
unfolding of_timespec to_timespec
to_timespec_lem t = omega arith

-- The nanoseconds that a sleep lasts.
unfoldable pub slept : Sleep → ℕ
slept s = (s.seconds * 1000000 + s.micros) * 1000

-- What `urt_sleep` asks the system for.
pub data Sleeps : ℤ → Option Sleep → Type 0 where
  returns : {t : ℤ} {r : Option Sleep} → t ≤ℤ pos 0 → r ≡ none → Sleeps t r
  waits :
      {t : ℤ} {r : Option Sleep} (n : ℕ) (s : Sleep)
      → t ≡ pos n
      → 0 < n
      → r ≡ some s
      → n ≤ slept s
      → slept s < n + 1000
      → s.micros < 1000000
      → Sleeps t r

sleep_pos :
    (n : ℕ)
    → 0 < n
    → n ≤ 4294967296 * 1000000000 - 1000000000
    → (s : Sleep) × (sleep (pos n) ≡ some s)
      × (n ≤ slept s)
      × (slept s < n + 1000)
      × (s.micros < 1000000)
unfolding sleep slept
sleep_pos n h small = (
  record { seconds = (n + 999) / 1000 / 1000000; micros = (n + 999) / 1000 % 1000000 },
  ground arith,
  omega arith,
  omega arith,
  omega arith,
)

-- `urt_sleep` returns at once when the time is not positive. Otherwise, below 2^32 - 1 seconds, it
-- sleeps at least the time and less than a microsecond longer, and never asks usleep for a second or
-- more.
pub sleep-Sleeps : (t : ℤ) → t ≤ℤ pos (4294967296 * 1000000000 - 1000000000) → Sleeps t (sleep t)
unfolding sleep
sleep-Sleeps (negsuc n) small = returns (omega arith) refl
sleep-Sleeps (pos zero) small = returns (omega arith) refl
sleep-Sleeps (pos (suc n)) small =
    let s = sleep_pos (suc n) (omega arith) (omega arith) in
    waits (suc n) s.0 refl (omega arith) s.1 s.2 s.3 s.4
