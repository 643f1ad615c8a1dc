-- ===== src/Base/Pigeon.antt =====
-- The pigeonhole principle: no injection of `n + 1` numbers into the numbers below `n`.
use urt.Base.{ℕ, zero, suc, ◌<◌, ◌≤◌, ◌≡◌, ◌==◌, if◌then◌else◌, arith}

-- `f` with the value `n` moved to where `f` takes `n + 1`.
move : ℕ → (ℕ → ℕ) → ℕ → ℕ
move n f k = if f k == n then f (suc n) else f k

move-lt :
    (n : ℕ) (f : ℕ → ℕ)
    → ((k : ℕ) → k ≤ suc n → f k < suc n)
    → ((i j : ℕ) → i ≤ suc n → j ≤ suc n → f i ≡ f j → i ≡ j)
    → (k : ℕ) → k ≤ n
    → move n f k < n
unfolding move
move-lt n f below inj k h = ground (arith, below k, below (suc n), inj k (suc n))

move-injective :
    (n : ℕ) (f : ℕ → ℕ)
    → ((i j : ℕ) → i ≤ suc n → j ≤ suc n → f i ≡ f j → i ≡ j)
    → (i j : ℕ) → i ≤ n
    → j ≤ n
    → move n f i ≡ move n f j
    → i ≡ j
unfolding move
move-injective n f inj i j hi hj e = ground (arith, inj i j, inj i (suc n), inj j (suc n))

pub pigeonhole :
    (n : ℕ) (f : ℕ → ℕ)
    → ((k : ℕ) → k ≤ n → f k < n)
    → ¬ ((i j : ℕ) → i ≤ n → j ≤ n → f i ≡ f j → i ≡ j)
pigeonhole zero f below inj = absurd (omega (arith, below 0 (omega arith)))
pigeonhole (suc n) f below inj =
    pigeonhole n (move n f) (move-lt n f below inj) (move-injective n f inj)
