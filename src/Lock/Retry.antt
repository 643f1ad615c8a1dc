-- ===== src/Lock/Retry.antt =====
-- Calls that are made again: while they are interrupted, and while a lock is busy.
use urt.Base.{
  ℕ, zero, suc, ◌+◌, ◌<◌, ◌≤◌, ◌≡◌, ap, ◌∙◌, true, false, Option, none, some, inl, inr, arith,
  Bool-cases, Option-cases, ℕ_discrete,
}
use urt.Global.{Errno, eintr}
use urt.Time.{Timespec, to_timespec}
use urt.Lock.{
  sem_wait, is_eintr, is_ebusy, retry_loop, sem_waitf, stop_of, sem_timed_wait, destroy_loop,
}

-- What a loop of retries returns: the calls before the `m`-th were interrupted.
pub record Retried (call : ℕ → Option Errno) (k : ℕ) (r : Option Errno) : Type 0 where
  pub retries : ℕ
  pub interrupted : (j : ℕ) → j < retries → call (k + j) ≡ some eintr
  pub answered : r ≡ call (k + retries)
  pub not_interrupted : is_eintr r ≡ false

is_eintr_lem : (r : Option Errno) → is_eintr r ≡ true → r ≡ some eintr
is_eintr_lem r q = ground arith

module _ (call : ℕ → Option Errno) where
  at_once : (k : ℕ) → is_eintr (call k) ≡ false → Retried call k (call k)
  at_once k answers = record {
    retries = 0;
    interrupted = λ j lt. absurd (omega arith);
    answered = ap call (omega arith);
    not_interrupted = answers;
  }

  later :
      (k : ℕ) (r : Option Errno)
      → is_eintr (call k) ≡ true
      → Retried call (k + 1) r
      → Retried call k r
  later k r again R = record {
    retries = suc R.retries;
    interrupted = earlier;
    answered = R.answered ∙ ap call (omega arith);
    not_interrupted = R.not_interrupted;
  }
    where
      earlier : (j : ℕ) → j < suc R.retries → call (k + j) ≡ some eintr
      earlier zero b = ap call (omega arith) ∙ is_eintr_lem (call k) again
      earlier (suc j) b = ap call (omega arith) ∙ R.interrupted j (omega arith)

  retry_loop-Retried :
      (n fuel k : ℕ)
      → n < fuel
      → is_eintr (call (k + n)) ≡ false
      → (r : Option Errno) × (retry_loop call fuel k ≡ some r) × Retried call k r
  unfolding retry_loop
  retry_loop-Retried n zero k h e = absurd (omega arith)
  retry_loop-Retried zero (suc fuel) k h e =
      let z : call (k + 0) ≡ call k = ap call (omega arith) in
      (call k, ground (arith, z), at_once k (ground (arith, z)))
  retry_loop-Retried (suc n) (suc fuel) k h e =
      let z : call (k + 1 + n) ≡ call (k + suc n) = ap call (omega arith) in
      elim (Bool-cases (is_eintr (call k))) [
        | inr answers ↦ (call k, ground arith, at_once k answers)
        | inl again ↦
            let rest = retry_loop-Retried n fuel (k + 1) (omega arith) (ground (arith, z)) in
            (rest.0, ground (arith, rest.1), later k rest.0 again rest.2)
      ]

-- A wait on a semaphore without a stop returns as soon as one call is not interrupted, with what that
-- call answered, and never reports an interruption.
pub sem_wait_retries :
    (delay now : ℕ) (timed : ℕ → Timespec → Option Errno) (wait : ℕ → Option Errno) (n fuel : ℕ)
    → n < fuel
    → is_eintr (wait n) ≡ false
    → (r : Option Errno) × (sem_wait delay now timed wait none fuel ≡ some r) × Retried wait 0 r
unfolding sem_wait sem_waitf stop_of
sem_wait_retries delay now timed wait n fuel h e =
    let z : wait (0 + n) ≡ wait n = ap wait (omega arith) in
    retry_loop-Retried wait n fuel 0 h (ground (arith, z))

-- A timed wait on a semaphore makes every call with the one deadline that its time sets, and returns
-- as soon as one of them is not interrupted.
pub sem_timed_wait_retries :
    (now max_wait : ℕ) (timed : ℕ → Timespec → Option Errno) (n fuel : ℕ)
    → n < fuel
    → is_eintr (timed n (to_timespec (now + max_wait))) ≡ false
    → (r : Option Errno) × (sem_timed_wait now max_wait timed fuel ≡ some r)
      × Retried (λ k. timed k (to_timespec (now + max_wait))) 0 r
unfolding sem_timed_wait
sem_timed_wait_retries now max_wait timed n fuel h e =
    let call : ℕ → Option Errno = λ k. timed k (to_timespec (now + max_wait)) in
    let z : call (0 + n) ≡ call n = ap call (omega arith) in
    retry_loop-Retried call n fuel 0 h (ground (arith, z))

-- The loop that destroys a lock ends as soon as the lock is not busy, or an unlock fails; each round
-- before found the lock busy and unlocked it.
pub destroy_loop_total :
    (destroy unlock : ℕ → Option Errno) (n fuel k : ℕ)
    → n < fuel
    → is_ebusy (destroy (k + n)) ≡ false
    → (m : ℕ) × (destroy_loop destroy unlock fuel k ≡ some m)
      × (m ≤ k + n)
      × ((j : ℕ) → k ≤ j → j < m → is_ebusy (destroy j) ≡ true)
unfolding destroy_loop
destroy_loop_total destroy unlock n zero k h e = absurd (omega arith)
destroy_loop_total destroy unlock zero (suc fuel) k h e =
    let z : destroy (k + 0) ≡ destroy k = ap destroy (omega arith) in
    (k, ground (arith, z), omega arith, (λ j le lt. absurd (omega arith)))
destroy_loop_total destroy unlock (suc n) (suc fuel) k h e =
    let z : destroy (k + 1 + n) ≡ destroy (k + suc n) = ap destroy (omega arith) in
    let rest = destroy_loop_total destroy unlock n fuel (k + 1) (omega arith) (ground (arith, z)) in
    elim (Bool-cases (is_ebusy (destroy k))) [
      | inr free ↦ (k, ground arith, omega arith, (λ j le lt. absurd (omega arith)))
      | inl busy ↦ elim (Option-cases (unlock k)) [
        | inl u ↦ (
          rest.0,
          ground (arith, rest.1),
          omega (arith, rest.2),
          (λ j le lt. earlier j busy le (rest.3 j) lt),
        )
        | inr (x, u) ↦ (
          k + 1,
          ground arith,
          omega arith,
          (λ j le lt. let q : j ≡ k = omega arith in rw q busy),
        )
      ]
    ]
  where
    earlier :
        (j : ℕ)
        → is_ebusy (destroy k) ≡ true
        → k ≤ j
        → {m : ℕ} → (k + 1 ≤ j → j < m → is_ebusy (destroy j) ≡ true)
        → j < m
        → is_ebusy (destroy j) ≡ true
    earlier j busy le behind lt = elim (ℕ_discrete k j) [
      | yes q ↦ rw (← q) busy
      | no ne ↦ behind (omega arith) lt
    ]
