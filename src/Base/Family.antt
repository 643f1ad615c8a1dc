-- ===== src/Base/Family.antt =====
-- Families of values by index: a change at one index, and sums over the first indices.
use Prim.Native.Nat.{ℕ, zero, suc, ◌+◌, ◌<◌, ◌≤◌}
use mathlib.Core.Path.{◌≡◌, refl}
use urt.Base.Tests.{◌==◌, if◌then◌else◌}
use native.Mathlib.Omega.{arith}
use native.Mathlib.Decide.{ℕ_discrete}

module _ {ℓ} {A : Type ℓ} where
  abbrev pub update : (ℕ → A) → ℕ → A → ℕ → A
  update f i a j = if i == j then a else f j

  -- The weights of the values at the indices below `n`, added up.
  pub sum_to : ℕ → (A → ℕ) → (ℕ → A) → ℕ
  sum_to zero w f = 0
  sum_to (suc n) w f = w (f n) + sum_to n w f

  sum_to-update_beyond :
      (n : ℕ) (w : A → ℕ) (f : ℕ → A) (i : ℕ) (a : A)
      → n ≤ i
      → sum_to n w (update f i a) ≡ sum_to n w f
  unfolding sum_to
  sum_to-update_beyond zero w f i a h = refl
  sum_to-update_beyond (suc n) w f i a h = ground (arith, sum_to-update_beyond n w f i a)

  pub sum_to-update :
      (n : ℕ) (w : A → ℕ) (f : ℕ → A) (i : ℕ) (a : A)
      → i < n
      → sum_to n w (update f i a) + w (f i) ≡ sum_to n w f + w a
  unfolding sum_to
  sum_to-update zero w f i a h = absurd (omega arith)
  sum_to-update (suc n) w f i a h = elim (ℕ_discrete i n) [
    | yes e ↦ rw e (ground (arith, sum_to-update_beyond n w f n a))
    | no ne ↦ ground (arith, sum_to-update n w f i a)
  ]

  pub le-sum_to : (n : ℕ) (w : A → ℕ) (f : ℕ → A) (i : ℕ) → i < n → w (f i) ≤ sum_to n w f
  unfolding sum_to
  le-sum_to zero w f i h = absurd (omega arith)
  le-sum_to (suc n) w f i h = elim (ℕ_discrete i n) [
    | yes e ↦ rw e (omega arith)
    | no ne ↦ omega (arith, le-sum_to n w f i (omega arith))
  ]

  pub sum_to_le :
      (n : ℕ) (w : A → ℕ) (f : ℕ → A) → ((i : ℕ) → i < n → w (f i) ≤ 1) → sum_to n w f ≤ n
  unfolding sum_to
  sum_to_le zero w f h = omega arith
  sum_to_le (suc n) w f h =
      omega (arith, h n (omega arith), sum_to_le n w f (λ i lt. h i (omega arith)))

  -- A sum is zero if each of its weights is.
  pub sum_to-zero :
      (n : ℕ) (w : A → ℕ) (f : ℕ → A) → ((i : ℕ) → i < n → w (f i) ≡ 0) → sum_to n w f ≡ 0
  unfolding sum_to
  sum_to-zero zero w f h = refl
  sum_to-zero (suc n) w f h =
      omega (arith, h n (omega arith), sum_to-zero n w f (λ i lt. h i (omega arith)))
