-- ===== src/Tests/Rtai.antt =====
-- Instances of the theorems on the RTAI back-end.
use urt.Base.{ℕ, ◌+◌, ◌<◌, ◌≤◌, ◌≡◌, ◌⊎◌, true, false, ◌/◌, arith}
use urt.Base.Int.{pos}
use urt.Rtai.Sleep.{sleep, at_once, shortest, longest, kernel_sleep_bounds}

kernel_sleep_bounds_example :
    ((sleep false true (pos 25000000) ≡ at_once) × (25000000 ≤ 0))
    ⊎ ((n : ℕ) × (pos 25000000 ≡ pos n)
        × (0 < n)
        × (n ≤ shortest (sleep false true (pos 25000000)))
        × (longest (sleep false true (pos 25000000)) < n + n / 64 + 1002000))
kernel_sleep_bounds_example = kernel_sleep_bounds (pos 25000000) (omega arith)
