-- ===== src/Base/Totals.antt =====
-- Sums over a family of threads, the threads numbered from 0.
use Prim.Native.Nat.{ℕ, zero, suc, ◌+◌, ◌≤◌, ◌<◌}
use mathlib.Core.Path.{◌≡◌, refl}
use mathlib.Core.Logic.{◌≢◌, inl, inr}
use native.Mathlib.Omega.{arith}
use operating_systems_agh_la.Base.Tests.{◌==◌, Bool-cases}
use operating_systems_agh_la.Base.Maps.{update}

module _ {A : Type 0} (weight : A → ℕ) where
  -- the weights of the first `n` threads together
  unfoldable pub total : ℕ → (ℕ → A) → ℕ
  total zero places = 0
  total (suc n) places = weight (places n) + total n places

  total-update_above :
      (n i : ℕ) (places : ℕ → A) (p : A) → n ≤ i → total n (update places i p) ≡ total n places
  unfolding total
  total-update_above zero i places p le = refl
  total-update_above (suc n) i places p le = ground (arith, total-update_above n i places p)

  pub total-update :
      (n i : ℕ) (places : ℕ → A) (p : A)
      → i < n
      → total n (update places i p) + weight (places i) ≡ total n places + weight p
  unfolding total
  total-update zero i places p lt = absurd (omega arith)
  total-update (suc n) i places p lt = elim (Bool-cases (i == n)) [
    | inl last ↦ ground (arith, total-update_above n i places p)
    | inr earlier ↦ ground (arith, total-update n i places p)
  ]

  pub one-total : (n i : ℕ) (places : ℕ → A) → i < n → weight (places i) ≤ total n places
  unfolding total
  one-total zero i places lt = absurd (omega arith)
  one-total (suc n) i places lt = ground (arith, one-total n i places)

  pub two-total :
      (n i j : ℕ) (places : ℕ → A)
      → i < n
      → j < n
      → i ≢ j
      → weight (places i) + weight (places j) ≤ total n places
  unfolding total
  two-total zero i j places lt lt' ne = absurd (omega arith)
  two-total (suc n) i j places lt lt' ne =
      ground (arith, two-total n i j places, one-total n i places, one-total n j places)

module _ {A : Type 0} (small big : A → ℕ) (le : (a : A) → small a ≤ big a) where
  total_mono : (n : ℕ) (places : ℕ → A) → total small n places ≤ total big n places
  unfolding total
  total_mono zero places = omega arith
  total_mono (suc n) places = omega (arith, le (places n), total_mono n places)

  -- What the others than `i` weigh in `small` is not more than what they weigh in `big`.
  pub total-others :
      (n i : ℕ) (places : ℕ → A)
      → i < n
      → total small n places + big (places i) ≤ total big n places + small (places i)
  unfolding total
  total-others zero i places lt = absurd (omega arith)
  total-others (suc n) i places lt = elim (Bool-cases (i == n)) [
    | inl last ↦ ground (arith, total_mono n places)
    | inr earlier ↦ ground (arith, le (places n), total-others n i places)
  ]
