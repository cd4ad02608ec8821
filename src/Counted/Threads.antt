-- ===== src/Counted/Threads.antt =====
-- Threads by their number: a change of one, and sums over all.
use my_skynet.Prelude.{ℕ, zero, suc, ◌+◌, ◌≤◌, ◌<◌, ◌≡◌, ◌≢◌, refl, arith, ◌==◌, if◌then◌else◌}
use native.Mathlib.Decide.{ℕ_discrete}

module _ {T : Type 0} where
  abbrev pub update : (ℕ → T) → ℕ → T → ℕ → T
  update threads i t j = if i == j then t else threads j

  -- the sum of a weight over the first `n` threads
  unfoldable pub total : (T → ℕ) → ℕ → (ℕ → T) → ℕ
  total w zero threads = 0
  total w (suc n) threads = w (threads n) + total w n threads

  total-above :
      (w : T → ℕ) (n i : ℕ) (t : T) (threads : ℕ → T)
      → n ≤ i
      → total w n (update threads i t) ≡ total w n threads
  unfolding total
  total-above w zero i t threads h = refl
  total-above w (suc n) i t threads h = ground (arith, total-above w n i t threads)

  pub total-update :
      (w : T → ℕ) (n i : ℕ) (t : T) (threads : ℕ → T)
      → i < n
      → total w n (update threads i t) + w (threads i) ≡ total w n threads + w t
  unfolding total
  total-update w zero i t threads h = absurd (omega (arith, h))
  total-update w (suc n) i t threads h = elim (ℕ_discrete i n) [
    | yes e ↦ ground (arith, total-above w n i t threads, e)
    | no d ↦ ground (arith, total-update w n i t threads, h, d)
  ]

  pub total-ge : (w : T → ℕ) (n i : ℕ) (threads : ℕ → T) → i < n → w (threads i) ≤ total w n threads
  unfolding total
  total-ge w zero i threads h = absurd (omega (arith, h))
  total-ge w (suc n) i threads h = elim (ℕ_discrete i n) [
    | yes e ↦ rw e (omega arith)
    | no d ↦ omega (arith, total-ge w n i threads, h, d)
  ]

  -- Two threads count twice.
  pub total-two :
      (w : T → ℕ) (n i j : ℕ) (threads : ℕ → T)
      → i < n
      → j < n
      → i ≢ j
      → w (threads i) + w (threads j) ≤ total w n threads
  unfolding total
  total-two w zero i j threads h k d = absurd (omega (arith, h))
  total-two w (suc n) i j threads h k d = elim (ℕ_discrete i n) [
    | yes e ↦ rw e (omega (arith, total-ge w n j threads, e, d, k))
    | no e ↦ elim (ℕ_discrete j n) [
      | yes f ↦ rw f (omega (arith, total-ge w n i threads, f, d, h))
      | no f ↦ omega (arith, total-two w n i j threads, h, k, d, e, f)
    ]
  ]

  pub total-zero :
      (w : T → ℕ) (n : ℕ) (threads : ℕ → T) → ((i : ℕ) → w (threads i) ≡ 0) → total w n threads ≡ 0
  unfolding total
  total-zero w zero threads h = refl
  total-zero w (suc n) threads h = omega (arith, h n, total-zero w n threads h)
