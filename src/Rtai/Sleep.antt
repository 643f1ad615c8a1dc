-- ===== src/Rtai/Sleep.antt =====
-- `urt_sleep` of sys/rtai/include/urt_sys_time.h. Times are nanoseconds that stay in the range of a
-- `long long`.
use urt.Base.{
  ℕ, ◌+◌, ◌-◌, ◌*◌, ◌/◌, ◌%◌, ◌^◌, ◌≤◌, ◌<◌, ◌≡◌, refl, ◌⊎◌, inl, inr, Bool, true, false, ltb, ◌==◌,
  if◌then◌else◌, Option, none, some, arith, ℕ_discrete,
}
use urt.Base.Int.{ℤ, pos, negsuc, ◌≤ℤ◌}
use urt.Time

-- What the function asks the system for.
pub data Nap : Type 0 where
  at_once : Nap
  rt_sleep : ℤ → Nap
  udelay : ℕ → Nap
  usleep_range : ℕ → ℕ → Nap
  msleep : ℕ → Nap
  user_sleep : Time.Sleep → Nap

-- In the kernel, with the time rounded up to microseconds. msleep takes an `unsigned int`.
unfoldable pub kernel_micros : ℕ → Nap
kernel_micros t =
    if ltb t 10
    then udelay t
    else if ltb t 15000
    then usleep_range t (t + t / 64)
    else msleep ((t + 999) / 1000 % 2 ^ 32)

unfoldable pub kernel_sleep : ℤ → Nap
unfolding kernel_micros
kernel_sleep (negsuc t) = at_once
kernel_sleep (pos t) = if t == 0 then at_once else kernel_micros ((t + 999) / 1000)

-- In user space, as that of POSIX.
unfoldable pub user_nap : Option Time.Sleep → Nap
user_nap none = at_once
user_nap (some s) = user_sleep s

-- urt_sleep
unfoldable pub sleep : Bool → Bool → ℤ → Nap
unfolding kernel_sleep user_nap
sleep rt_context in_kernel t =
    if rt_context then rt_sleep t else if in_kernel then kernel_sleep t else user_nap (Time.sleep t)

-- The shortest and the longest time, in nanoseconds, that a nap of Linux asks for.
abbrev pub shortest : Nap → ℕ
shortest at_once = 0
shortest (rt_sleep t) = 0
shortest (udelay n) = n * 1000
shortest (usleep_range a b) = a * 1000
shortest (msleep n) = n * 1000000
shortest (user_sleep s) = (s.seconds * 1000000 + s.micros) * 1000

abbrev pub longest : Nap → ℕ
longest at_once = 0
longest (rt_sleep t) = 0
longest (udelay n) = n * 1000
longest (usleep_range a b) = b * 1000
longest (msleep n) = n * 1000000
longest (user_sleep s) = (s.seconds * 1000000 + s.micros) * 1000

kernel_micros_bounds :
    (t us : ℕ)
    → t ≤ us * 1000
    → us * 1000 < t + 1000
    → us ≤ 1000 * (2 ^ 32 - 1)
    → (t ≤ shortest (kernel_micros us)) × (longest (kernel_micros us) < t + t / 64 + 1002000)
unfolding kernel_micros
kernel_micros_bounds t us a b small = ground arith

negative : (m : ℕ) → kernel_sleep (negsuc m) ≡ at_once
unfolding kernel_sleep
negative m = refl

zero_lem : kernel_sleep (pos 0) ≡ at_once
unfolding kernel_sleep
zero_lem = refl

kernel_sleep_pos : (n : ℕ) → 0 < n → kernel_sleep (pos n) ≡ kernel_micros ((n + 999) / 1000)
unfolding kernel_sleep
kernel_sleep_pos n h = ground arith

-- Outside of real-time context, and for at most 2^32 - 1 milliseconds, `urt_sleep` in the kernel
-- returns at once when the time is not positive, and otherwise asks for at least the time, and for less
-- than a 64th and 1002 microseconds more.
pub kernel_sleep_bounds :
    (t : ℤ)
    → t ≤ℤ pos (1000000 * (2 ^ 32 - 1))
    → ((sleep false true t ≡ at_once) × (t ≤ℤ pos 0))
      ⊎ ((n : ℕ) × (t ≡ pos n)
          × (0 < n)
          × (n ≤ shortest (sleep false true t))
          × (longest (sleep false true t) < n + n / 64 + 1002000))
unfolding sleep
kernel_sleep_bounds (negsuc m) small = inl (negative m, omega arith)
kernel_sleep_bounds (pos n) small = elim (ℕ_discrete n 0) [
  | yes z ↦ inl (rw z zero_lem, omega arith)
  | no ne ↦
      let b = kernel_micros_bounds n ((n + 999) / 1000) (omega arith) (omega arith) (omega arith) in
      let e = kernel_sleep_pos n (omega arith) in inr (n, refl, omega arith, rw e b.0, rw e b.1)
]
