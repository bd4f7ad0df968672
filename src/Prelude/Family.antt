-- ===== src/Prelude/Family.antt =====
-- One value for each thread: a write at one thread, and a sum over the first `n` threads.
use Prim.Native.Nat.{ℕ, zero, suc, ◌+◌, ◌≤◌, ◌<◌}
use mathlib.Core.Path.{◌≡◌, refl}
use mathlib.Core.Logic.{◌≢◌}
use native.Mathlib.Omega.{arith}
use virtual_blackboard.Prelude.Tests.{◌==◌, if◌then◌else◌}

module _ {ℓ} {A : Type ℓ} where
  abbrev pub put : (ℕ → A) → ℕ → A → ℕ → A
  put f i a j = if j == i then a else f j

  pub total : (A → ℕ) → ℕ → (ℕ → A) → ℕ
  total weight zero f = 0
  total weight (suc n) f = weight (f n) + total weight n f

  total-put_above :
      (weight : A → ℕ) (n : ℕ) (f : ℕ → A) (i : ℕ) (a : A)
      → n ≤ i
      → total weight n (put f i a) ≡ total weight n f
  unfolding total
  total-put_above weight zero f i a h = refl
  total-put_above weight (suc n) f i a h = ground (arith, total-put_above weight n f i a)

  -- A write exchanges the weight of the old value for that of the new one.
  pub total-put :
      (weight : A → ℕ) (n : ℕ) (f : ℕ → A) (i : ℕ) (a : A)
      → i < n
      → total weight n (put f i a) + weight (f i) ≡ total weight n f + weight a
  unfolding total
  total-put weight zero f i a h = absurd (omega arith)
  total-put weight (suc n) f i a h =
      ground (arith, total-put weight n f i a, total-put_above weight n f i a)

  pub weight-le-total :
      (weight : A → ℕ) (n : ℕ) (f : ℕ → A) (i : ℕ) → i < n → weight (f i) ≤ total weight n f
  unfolding total
  weight-le-total weight zero f i h = absurd (omega arith)
  weight-le-total weight (suc n) f i h = ground (arith, weight-le-total weight n f i)

  -- Two threads weigh no more than all together.
  pub weights-le-total :
      (weight : A → ℕ) (n : ℕ) (f : ℕ → A) (i j : ℕ)
      → i < n
      → j < n
      → i ≢ j
      → weight (f i) + weight (f j) ≤ total weight n f
  unfolding total
  weights-le-total weight zero f i j h k ne = absurd (omega arith)
  weights-le-total weight (suc n) f i j h k ne = ground (
    arith,
    weights-le-total weight n f i j,
    weight-le-total weight n f i,
    weight-le-total weight n f j,
  )

  pub total_zero :
      (weight : A → ℕ) (n : ℕ) (f : ℕ → A)
      → ((i : ℕ) → i < n → weight (f i) ≡ 0)
      → total weight n f ≡ 0
  unfolding total
  total_zero weight zero f h = refl
  total_zero weight (suc n) f h =
      omega (arith, h n (omega arith), total_zero weight n f (λ i lt. h i (omega arith)))

  -- Only one thread weighs anything.
  pub total_single :
      (weight : A → ℕ) (n k : ℕ) (f : ℕ → A)
      → k < n
      → ((i : ℕ) → i < n → i ≢ k → weight (f i) ≡ 0)
      → total weight n f ≡ weight (f k)
  unfolding total
  total_single weight zero k f h z = absurd (omega arith)
  total_single weight (suc n) k f h z = ground (
    arith,
    total_single weight n k f,
    total_zero weight n f,
    z n,
    (λ (i : ℕ) (lt : i < n). z i (omega arith)),
  )
