-- ===== src/Search/Budget.antt =====
-- The laws of the adaptive trial budget.
use astra_back.Prelude.{ℕ, ◌+◌, ◌*◌, ◌≤◌, ◌≡◌, true, arith}
use astra_back.Search.Trials.{Settings, budget}

module _ (s : Settings) (adaptive : s.adaptive ≡ true) where
  -- The adaptive budget never passes `max_trials`; it is at least `min_trials` unless the ceiling
  -- is lower; it does not fall when there are more dimensions; and where the linear rule lies
  -- between the two clamps, it is that rule.
  pub budget_clamped :
      (d e : ℕ)
      → (budget s d ≤ s.max_trials)
        × (s.min_trials ≤ s.max_trials → s.min_trials ≤ budget s d)
        × (d ≤ e → budget s d ≤ budget s e)
        × (s.min_trials ≤ s.trials_per_dim * d + s.startup_trials
            → s.trials_per_dim * d + s.startup_trials ≤ s.max_trials
            → budget s d ≡ s.trials_per_dim * d + s.startup_trials)
  unfolding budget
  budget_clamped d e = (ground arith, λ h. ground arith, λ h. grind arith, λ h k. ground arith)
