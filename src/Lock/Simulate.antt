-- ===== src/Lock/Simulate.antt =====
-- SIMULATE_TIMEDLOCK_WITH_TRYLOCK of sys/posix/src/lock.c: a timed lock made of tries.
use urt.Base.{ℕ, zero, suc, ◌+◌, ◌≤◌, ◌≡◌, Bool, true, false, Option, none, some, ltb}
use urt.Global.{Errno, etimedout}

-- What a try returns: -1, or an error number. `none` is 0, the lock is taken.
pub data Ret : Type 0 where
  minus_one : Ret
  code : Errno → Ret

-- The value that a try returns, and `errno` behind it.
pub record Try : Type 0 where
  pub ret : Option Ret
  pub errno : Option Errno

-- The loop from round `k` on: the value returned, and `errno`. `is_again` tells `again_errno`, and
-- `clock k` is the time at the end of round `k`. The outer `none`: out of fuel.
unfoldable pub simulate_timedlock :
    (Option Errno → Bool) → ℕ → (ℕ → Try) → (ℕ → ℕ) → ℕ → ℕ → Option (Option Ret × Option Errno)
simulate_timedlock is_again timeout tries clock zero k = none
simulate_timedlock is_again timeout tries clock (suc fuel) k =
    let rest = simulate_timedlock is_again timeout tries clock fuel (k + 1) in
    elim ((tries k).ret) [
      | none ↦ some (none, (tries k).errno)
      | some r ↦ elim (is_again (tries k).errno) [
        | false ↦ some (some r, (tries k).errno)
        | true ↦ elim (ltb (clock k) timeout) [
          | true ↦ rest
          | false ↦ some (some r, some etimedout)
        ]
      ]
    ]

module _ (is_again : Option Errno → Bool) (timeout : ℕ) (tries : ℕ → Try) (clock : ℕ → ℕ) where
  -- How the loop ends by round `last`: a try took the lock, or failed with another error, or the
  -- time was over and `errno` says so.
  pub data Simulated (last : ℕ) : Option Ret → Option Errno → Type 0 where
    taken : (j : ℕ) → j ≤ last → (tries j).ret ≡ none → Simulated last none (tries j).errno
    failed :
        {r : Ret} (j : ℕ)
        → j ≤ last
        → (tries j).ret ≡ some r
        → is_again (tries j).errno ≡ false
        → Simulated last (some r) (tries j).errno
    timed_out :
        {r : Ret} (j : ℕ) → j ≤ last → timeout ≤ clock j → Simulated last (some r) (some etimedout)
