-- ===== src/Base/Tables.antt =====
-- Facts over a small range, checked at every value by evaluation.
use tos_spec.Base.{ℕ, zero, suc, ◌<◌, ◌≡◌, Bool, true, ◌&&◌, arith}

unfoldable pub all_below : ℕ → (ℕ → Bool) → Bool
all_below zero test = true
all_below (suc k) test = test k && all_below k test

module _ (test : ℕ → Bool) where
  pub all_below_sound : (k i : ℕ) → i < k → all_below k test ≡ true → test i ≡ true
  unfolding all_below
  all_below_sound zero i below all = absurd (omega arith)
  all_below_sound (suc k) i below all = ground (arith, all_below_sound k i)
