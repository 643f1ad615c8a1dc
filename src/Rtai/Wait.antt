-- ===== src/Rtai/Wait.antt =====
-- When the locking functions of sys/rtai/src/lock.c return, and with what.
use urt.Base.{
  ℕ, zero, suc, ◌+◌, ◌<◌, ◌≤◌, ◌≡◌, refl, sym, ◌⊎◌, inl, inr, true, false, Bool, Option, some,
  arith, if◌then◌else◌, Bool-cases, ℕ_discrete,
}
use urt.Base.Int.{ℤ}
use urt.Global.{Errno, etimedout, ecanceled, Result, ok, err}
use urt.Lock.{is_etimedout}
use urt.Lock.Stoppable.{Ends, cancelled, answered}
use urt.Rtai.Lock.{
  eq_ℤ, mutex_timed_lock, told, sem_result, lock_result, stop_loop, stoppable, sem_timed_wait,
  sem_waitf, mutex_lockf, rwlock_read_lockf, rwlock_write_lockf, cond_waitf,
}

module _ (rte_base rte_timout : ℤ) where
  -- What the rounds of the loop from round `k` on were, up to the `last` one.
  record Loop (stop : ℕ → Bool) (timed : ℕ → ℤ) (k n : ℕ) (r : Result ℤ) : Type 0 where
    pub last : ℕ
    pub before : last ≤ n
    pub waited : (j : ℕ) → k ≤ j → j < last → (eq_ℤ (timed j) rte_timout ≡ true) × (stop j ≡ false)
    pub ended :
        ((eq_ℤ (timed last) rte_timout ≡ true) × (stop last ≡ true) × (r ≡ err ecanceled))
        ⊎ ((eq_ℤ (timed last) rte_timout ≡ false) × (r ≡ ok (timed last)))

  module _ (stop : ℕ → Bool) (timed : ℕ → ℤ) where
    further :
        (k n : ℕ) (r : Result ℤ)
        → eq_ℤ (timed k) rte_timout ≡ true
        → stop k ≡ false
        → Loop stop timed (k + 1) n r
        → Loop stop timed k n r
    further k n r t s l = record {
      last = l.last;
      before = l.before;
      waited = λ j le lt. elim (ℕ_discrete k j) [
        | yes q ↦ rw (sym q) (t, s)
        | no ne ↦ l.waited j (omega arith) lt
      ];
      ended = l.ended;
    }

    at_once :
        (k n : ℕ) (r : Result ℤ)
        → k ≤ n
        → ((eq_ℤ (timed k) rte_timout ≡ true) × (stop k ≡ true) × (r ≡ err ecanceled))
          ⊎ ((eq_ℤ (timed k) rte_timout ≡ false) × (r ≡ ok (timed k)))
        → Loop stop timed k n r
    at_once k n r le e = record {
      last = k;
      before = le;
      waited = λ j a b. absurd (omega arith);
      ended = e;
    }

    stop_loop-Loop :
        (fuel k n : ℕ)
        → k ≤ n
        → n < k + fuel
        → stop n ≡ true
        → (r : Result ℤ) × (stop_loop rte_base rte_timout stop timed fuel k ≡ some r)
          × Loop stop timed k n r
    unfolding stop_loop
    stop_loop-Loop zero k n le lt s = absurd (omega arith)
    stop_loop-Loop (suc fuel) k n le lt s = elim (Bool-cases (eq_ℤ (timed k) rte_timout)) [
      | inr answers ↦ (ok (timed k), rw answers refl, at_once k n _ le (inr (answers, refl)))
      | inl waits ↦ elim (Bool-cases (stop k)) [
        | inl now ↦ (err ecanceled, rw (waits, now) refl, at_once k n _ le (inl (waits, now, refl)))
        | inr later ↦
            let rest = stop_loop-Loop fuel (k + 1) n (ground arith) (omega arith) s in
            (rest.0, rw (waits, later) rest.1, further k n rest.0 waits later rest.2)
      ]
    ]

    -- The loop as a sequence of timed locks, each of which times out or gives `result`.
    module _ (result : ℤ → Option Errno) (calls : ℕ → Option Errno)
        (times_out : (j : ℕ) → eq_ℤ (timed j) rte_timout ≡ true → calls j ≡ some etimedout)
        (answers : (j : ℕ) → eq_ℤ (timed j) rte_timout ≡ false → calls j ≡ result (timed j))
        (never : (x : ℤ) → is_etimedout (result x) ≡ false) where
      abbrev told_of : Result ℤ → Option Errno
      told_of (ok x) = result x
      told_of (err e) = some e

      told-some : (r : Result ℤ) → told result (some r) ≡ some (told_of r)
      unfolding told
      told-some (ok x) = refl
      told-some (err e) = refl

      Loop-Ends : (n : ℕ) (r : Result ℤ) → Loop stop timed 0 n r → Ends calls stop n (told_of r)
      Loop-Ends n r l = elim l.ended [
        | inl (t, s, e) ↦
            cancelled l.last l.before s (rw e refl)
              (λ m lt. times_out m (l.waited m (omega arith) lt).0)
        | inr (t, e) ↦
            answered l.last l.before (rw e (sym (answers l.last t))) (rw e (never (timed l.last)))
              (λ m lt.
                (times_out m (l.waited m (omega arith) lt).0, (l.waited m (omega arith) lt).1))
      ]

      told-Ends :
          (wait : ℤ) (n fuel : ℕ)
          → n < fuel
          → stop n ≡ true
          → (r : Option Errno) × (told result
                (stoppable rte_base rte_timout (some stop) timed wait fuel)
              ≡ some r)
            × Ends calls stop n r
      unfolding stoppable
      told-Ends wait n fuel h s =
          let l = stop_loop-Loop fuel 0 n (omega arith) (omega arith) s in
          (told_of l.0, rw l.1 (told-some l.0), Loop-Ends n l.0 l.2)

  sem_result_never : (x : ℤ) → is_etimedout (sem_result rte_base rte_timout x) ≡ false
  unfolding sem_result
  sem_result_never x = ground arith

  lock_result_never : (x : ℤ) → is_etimedout (lock_result x) ≡ false
  unfolding lock_result
  lock_result_never x = ground arith

  -- `urt_mutex_lockf` with a stop that is true at the `n`-th look at it, and with fuel for more than `n`
  -- rounds, returns, and is a sequence of timed locks: it returns what the first of them that does not
  -- time out returns, or ECANCELED once the stop was true, at the `n`-th call at the latest.
  pub mutex_lockf-Ends :
      (stop : ℕ → Bool) (timed : ℕ → ℤ) (lock : ℤ) (n fuel : ℕ)
      → n < fuel
      → stop n ≡ true
      → (r : Option Errno) × (mutex_lockf rte_base rte_timout (some stop) timed lock fuel ≡ some r)
        × Ends (λ j. mutex_timed_lock rte_base rte_timout (timed j)) stop n r
  unfolding mutex_lockf sem_waitf mutex_timed_lock sem_timed_wait
  mutex_lockf-Ends stop timed lock n fuel h s =
      told-Ends stop timed (sem_result rte_base rte_timout)
        (λ j. sem_timed_wait rte_base rte_timout (timed j)) (λ j t. rw t refl) (λ j t. rw t refl)
        sem_result_never lock n fuel h s

  -- What a timed call is to a reader-writer lock or a condition.
  abbrev pub plain_call : (ℕ → ℤ) → ℕ → Option Errno
  plain_call timed j = if eq_ℤ (timed j) rte_timout then some etimedout else lock_result (timed j)

  -- The same for the locks of a reader-writer lock and the wait on a condition, where any other
  -- failure is EDEADLK.
  pub rwlock_lockf-Ends :
      (stop : ℕ → Bool) (timed : ℕ → ℤ) (lock : ℤ) (n fuel : ℕ)
      → n < fuel
      → stop n ≡ true
      → (r : Option Errno) × (rwlock_read_lockf rte_base rte_timout (some stop) timed lock fuel
          ≡ some r)
        × (rwlock_write_lockf rte_base rte_timout (some stop) timed lock fuel ≡ some r)
        × (cond_waitf rte_base rte_timout (some stop) timed lock fuel ≡ some r)
        × Ends (plain_call timed) stop n r
  unfolding rwlock_read_lockf rwlock_write_lockf cond_waitf
  rwlock_lockf-Ends stop timed lock n fuel h s =
      let l =
        told-Ends stop timed lock_result (plain_call timed) (λ j t. rw t refl) (λ j t. rw t refl)
          lock_result_never lock n fuel h s in
      (l.0, l.1, l.1, l.1, l.2)
