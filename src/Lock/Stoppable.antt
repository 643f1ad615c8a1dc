-- ===== src/Lock/Stoppable.antt =====
-- What a lock that can be stopped promises, whatever the back-end: a sequence of timed locks, up to
-- one that does not time out, or up to a look at the stop.
use urt.Base.{
  ℕ, suc, ◌+◌, ◌*◌, ◌<◌, ◌≤◌, ◌≡◌, ◌∙◌, sym, ap, inl, inr, true, false, Bool, Option, some, arith,
  ◌≢◌,
}
use urt.Global.{Errno, etimedout, ecanceled}
use urt.Time.{Timespec, to_timespec}
use urt.Lock.{is_etimedout, mutex_lock, lock_stop}
use urt.Lock.Wait.{Returned, mutex_lock_stops, answer}

-- `calls j` is what the j-th timed lock returns, and `stop j` what the j-th look at the stop gives.
pub data Ends (calls : ℕ → Option Errno) (stop : ℕ → Bool) (n : ℕ) (r : Option Errno) : Type 0 where
  cancelled :
      (j : ℕ)
      → j ≤ n
      → stop j ≡ true
      → r ≡ some ecanceled
      → ((m : ℕ) → m < j → calls m ≡ some etimedout)
      → Ends calls stop n r
  answered :
      (j : ℕ)
      → j ≤ n
      → r ≡ calls j
      → is_etimedout r ≡ false
      → ((m : ℕ) → m < j → (calls m ≡ some etimedout) × (stop m ≡ false))
      → Ends calls stop n r

flag_seen : (flag : ℕ → ℕ) (n : ℕ) → flag n ≢ 0 → lock_stop flag n ≡ true
unfolding lock_stop
flag_seen flag n ne = ground arith

module _ (delay now : ℕ) (timed : ℕ → Timespec → Option Errno) (flag : ℕ → ℕ) where
  -- The j-th timed lock of the POSIX loop, whose deadline is `j + 1` delays away.
  abbrev pub posix_call : ℕ → Option Errno
  posix_call j = timed j (to_timespec (now + suc j * delay))

  answer_lem : (j : ℕ) → answer delay (lock_stop flag) timed 0 now j ≡ posix_call j
  answer_lem j = ap (λ x. timed x (to_timespec (now + suc j * delay))) (omega arith)

  look_lem : (j : ℕ) → lock_stop flag (0 + j) ≡ lock_stop flag j
  look_lem j = ap (lock_stop flag) (omega arith)

  Returned-Ends :
      (n : ℕ) (r : Option Errno)
      → lock_stop flag n ≡ true
      → Returned delay (lock_stop flag) timed 0 now r
      → Ends posix_call (lock_stop flag) n r
  Returned-Ends n r set R = elim R.ended [
    | inl (s, e) ↦
        cancelled R.rounds before (sym (look_lem R.rounds) ∙ s) e
          (λ m lt. sym (answer_lem m) ∙ (R.waited m lt).1)
    | inr (s, e, t) ↦
        answered R.rounds before (e ∙ answer_lem R.rounds) t
          (λ m lt. (sym (answer_lem m) ∙ (R.waited m lt).1, sym (look_lem m) ∙ (R.waited m lt).0))
  ]
    where
      before : R.rounds ≤ n
      before = ground (arith, R.waited n, look_lem n)

  -- `urt_mutex_lock` with a stop flag that is set by the `n`-th look at it, and with fuel for more than
  -- `n` rounds, returns, and is a sequence of timed locks, one delay apart: it returns what the first of
  -- them that does not time out returns, or ECANCELED once the flag was seen, at the `n`-th call at the
  -- latest.
  pub mutex_lock-Ends :
      (lock : Option Errno) (n fuel : ℕ)
      → n < fuel
      → flag n ≢ 0
      → (r : Option Errno) × (mutex_lock delay now timed lock (some flag) fuel ≡ some r)
        × Ends posix_call (lock_stop flag) n r
  mutex_lock-Ends lock n fuel h ne =
      let r = mutex_lock_stops delay now timed lock flag n fuel h ne in
      (r.0, r.1, Returned-Ends n r.0 (flag_seen flag n ne) r.2)
