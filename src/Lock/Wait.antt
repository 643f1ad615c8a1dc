-- ===== src/Lock/Wait.antt =====
-- When the locking functions return, and with what.
use urt.Base.{
  ℕ, zero, suc, ◌+◌, ◌*◌, ◌<◌, ◌≡◌, sym, ap, ◌∙◌, Bool, true, false, Option, some, ◌⊎◌, inl, inr,
  arith, Bool-cases, ◌≢◌,
}
use urt.Global.{Errno, ecanceled, etimedout}
use urt.Time.{Timespec, to_timespec}
use urt.Lock.{is_etimedout, stop_loop, pthread_lockf, mutex_lock, stop_of, mutex_lockf, lock_stop}

module _ (delay : ℕ) (stop : ℕ → Bool) (timed : ℕ → Timespec → Option Errno) where
  -- The `j`-th call behind round `k`, whose deadline is `delay` after the one before.
  abbrev pub answer : ℕ → ℕ → ℕ → Option Errno
  answer k t j = timed (k + j) (to_timespec (t + suc j * delay))

  -- What the loop's rounds were when it returned `r`: `n` of them were not stopped and timed out, and
  -- in the next one the caller asked to stop, or the call gave another answer.
  pub record Returned (k t : ℕ) (r : Option Errno) : Type 0 where
    pub rounds : ℕ
    pub waited : (j : ℕ) → j < rounds → (stop (k + j) ≡ false) × (answer k t j ≡ some etimedout)
    pub ended :
        ((stop (k + rounds) ≡ true) × (r ≡ some ecanceled))
        ⊎ ((stop (k + rounds) ≡ false) × (r ≡ answer k t rounds) × (is_etimedout r ≡ false))

  round_one :
      (k t : ℕ) → (stop (k + 0) ≡ stop k) × (answer k t 0 ≡ timed k (to_timespec (t + delay)))
  round_one k t =
      let e : k + 0 ≡ k = omega arith in
      let d : t + 1 * delay ≡ t + delay = omega arith in (ap stop e, rw (e, d))

  shift :
      (k t j : ℕ)
      → (stop (k + 1 + j) ≡ stop (k + suc j)) × (answer (k + 1) (t + delay) j ≡ answer k t (suc j))
  shift k t j =
      let e : k + 1 + j ≡ k + suc j = omega arith in
      let d : t + delay + suc j * delay ≡ t + suc (suc j) * delay = omega arith in
      (ap stop e, rw (e, d))

  -- One more round in front.
  Returned-later :
      (k t : ℕ) (r : Option Errno)
      → stop k ≡ false
      → timed k (to_timespec (t + delay)) ≡ some etimedout
      → Returned (k + 1) (t + delay) r
      → Returned k t r
  Returned-later k t r s e R = record {
    rounds = suc R.rounds;
    waited = waited;
    ended = ground (arith, R.ended, shift k t R.rounds);
  }
    where
      waited : (j : ℕ) → j < suc R.rounds → (stop (k + j) ≡ false) × (answer k t j ≡ some etimedout)
      waited zero h = ((round_one k t).0 ∙ s, (round_one k t).1 ∙ e)
      waited (suc j) h = (
        sym (shift k t j).0 ∙ (R.waited j (omega arith)).0,
        sym (shift k t j).1 ∙ (R.waited j (omega arith)).1,
      )

  etimedout_of : (r : Option Errno) → is_etimedout r ≡ true → r ≡ some etimedout
  etimedout_of r h = ground arith

  pub stop_loop-Returned :
      (fuel k t : ℕ) (r : Option Errno)
      → stop_loop delay stop timed fuel k t ≡ some r
      → Returned k t r
  unfolding stop_loop
  stop_loop-Returned zero k t r h = absurd (cc)
  stop_loop-Returned (suc fuel) k t r h = elim (Bool-cases (stop k)) [
    | inl s ↦ record {
      rounds = 0;
      waited = λ j lt. absurd (omega arith);
      ended = inl ((round_one k t).0 ∙ s, ground arith);
    }
    | inr s ↦ elim (Bool-cases (is_etimedout (timed k (to_timespec (t + delay))))) [
      | inl e ↦
          Returned-later k t r s (etimedout_of _ e)
            (stop_loop-Returned fuel (k + 1) (t + delay) r (ground arith))
      | inr e ↦ record {
        rounds = 0;
        waited = λ j lt. absurd (omega arith);
        ended = inr ((round_one k t).0 ∙ s, ground (arith, round_one k t), ground arith);
      }
    ]
  ]

  -- A stop that comes by round `n` ends the loop within `n + 1` rounds.
  pub stop_loop_total :
      (n fuel k t : ℕ)
      → n < fuel
      → stop (k + n) ≡ true
      → (r : Option Errno) × (stop_loop delay stop timed fuel k t ≡ some r)
  unfolding stop_loop
  stop_loop_total n zero k t h s = absurd (omega arith)
  stop_loop_total zero (suc fuel) k t h s = (some ecanceled, ground (arith, round_one k t))
  stop_loop_total (suc n) (suc fuel) k t h s = elim (Bool-cases (stop k)) [
    | inl now ↦ (some ecanceled, ground arith)
    | inr wait ↦
        let rest = stop_loop_total n fuel (k + 1) (t + delay) (omega arith) ((shift k t n).0 ∙ s) in
        elim (Bool-cases (is_etimedout (timed k (to_timespec (t + delay))))) [
          | inl e ↦ (rest.0, ground (arith, rest.1))
          | inr e ↦ (timed k (to_timespec (t + delay)), ground arith)
        ]
  ]

set_by : (flag : ℕ → ℕ) (m : ℕ) → flag m ≢ 0 → lock_stop flag (0 + m) ≡ true
unfolding lock_stop
set_by flag m ne = let z : 0 + m ≡ m = omega arith in rw z (ground arith)

-- A lock that is asked for with a stop flag: once the flag is set by the `n`-th look at it, the
-- call returns, and it reports a lock only if the last timed call gave one, ECANCELED only if the
-- flag was set, and never a timeout.
pub mutex_lock_stops :
    (delay now : ℕ) (timed : ℕ → Timespec → Option Errno) (lock : Option Errno) (flag : ℕ → ℕ)
    (n fuel : ℕ)
    → n < fuel
    → flag n ≢ 0
    → (r : Option Errno) × (mutex_lock delay now timed lock (some flag) fuel ≡ some r)
      × Returned delay (lock_stop flag) timed 0 now r
unfolding mutex_lock mutex_lockf pthread_lockf stop_of
mutex_lock_stops delay now timed lock flag n fuel h s =
    let r = stop_loop_total delay (lock_stop flag) timed n fuel 0 now h (set_by flag n s) in
    (r.0, r.1, stop_loop-Returned delay (lock_stop flag) timed fuel 0 now r.0 r.1)
