-- ===== src/Search/Trials.antt =====
-- The adaptive budget of `ParetoSearch`, and the configurations that one objective evaluation
-- samples. Optuna's `trial.suggest_*` is the parameter `Sampler`.
use astra_back.Prelude.{
  one_if, ℕ, ◌+◌, ◌*◌, ◌≤◌, ◌≡◌, min, max, Bool, true, false, not, ◌&&◌, none, List, [], ◌∷◌, ◌++◌,
  ltb, ◌==◌, any, length, if◌then◌else◌,
}
use astra_back.Compression.{
  OperatorCategory, normalization, tree_ensemble, OperatorInfo, PrecisionLevel, level,
  CompressionConfig, is_no_compression, ActionSpace, ConcreteAction, translate,
}

pub record Settings : Type 0 where
  pub n_trials : ℕ
  pub allow_pruning : Bool
  pub adaptive : Bool
  pub trials_per_dim : ℕ
  pub startup_trials : ℕ
  pub min_trials : ℕ
  pub max_trials : ℕ

-- `_FUSE_EFFECTIVE_CATEGORIES`
abbrev pub fuse_effective : OperatorCategory → Bool
fuse_effective normalization = true
fuse_effective tree_ensemble = true
fuse_effective _ = false

-- The dimensions of one operator: a precision to choose, a fusion with an effect, a pruning range.
abbrev pub dimensions_of : Bool → OperatorInfo → ActionSpace → ℕ
dimensions_of allow_pruning op sp =
    one_if (ltb 1 (length sp.allowed_precisions))
    + one_if (sp.fuse_available && fuse_effective op.category)
    + one_if (allow_pruning && ltb 0 sp.prune_hi)

-- The `D` of `_effective_dimensionality`; `spaces` is `action_spaces[op.name]`.
unfoldable pub effective_dimensionality :
    (OperatorInfo → ActionSpace) → List OperatorInfo → Bool → ℕ
effective_dimensionality spaces [] allow_pruning = 0
effective_dimensionality spaces (op ∷ ops) allow_pruning =
    dimensions_of allow_pruning op (spaces op) + effective_dimensionality spaces ops allow_pruning

unfoldable pub budget : Settings → ℕ → ℕ
budget s dims =
    if not s.adaptive
    then s.n_trials
    else min s.max_trials (max s.min_trials (s.trials_per_dim * dims + s.startup_trials))

-- The trials below which the early stop is not tried, `floor`.
unfoldable pub early_stop_floor : Settings → ℕ → ℕ
early_stop_floor s n_trials = max s.startup_trials (min s.min_trials n_trials)

-- What a trial answers. Each answer is one of the choices that it was offered.
pub record Sampler : Type 0 where
  pub suggest_precision : ℕ → List PrecisionLevel → PrecisionLevel
  pub suggest_prune : ℕ → ℕ → ℕ → ℕ
  pub suggest_fuse : ℕ → Bool
  pub chosen :
      (name : ℕ) (p : PrecisionLevel) (ps : List PrecisionLevel)
      → any (λ q. level q == level (suggest_precision name (p ∷ ps))) (p ∷ ps) ≡ true
  pub in_range :
      (name lo hi : ℕ) → lo ≤ hi → (lo ≤ suggest_prune name lo hi) × (suggest_prune name lo hi ≤ hi)

-- A value, and the number of `suggest_*` calls that it took.
abbrev Sampled : Type 0 → Type 0
Sampled A = A × ℕ

abbrev pub sample_precision : Sampler → ℕ → List PrecisionLevel → Sampled PrecisionLevel
sample_precision t name [] = (t.suggest_precision name [], 1)
sample_precision t name (p ∷ []) = (p, 0)
sample_precision t name (p ∷ q ∷ ps) = (t.suggest_precision name (p ∷ q ∷ ps), 1)

abbrev sample_prune : Sampler → Bool → ℕ → ActionSpace → Sampled ℕ
sample_prune t allow_pruning name sp =
    if allow_pruning && ltb 0 sp.prune_hi
    then (t.suggest_prune name sp.prune_lo sp.prune_hi, 1)
    else (0, 0)

abbrev sample_fuse : Sampler → OperatorInfo → ActionSpace → Sampled Bool
sample_fuse t op sp =
    if sp.fuse_available && fuse_effective op.category
    then (t.suggest_fuse op.name, 1)
    else (false, 0)

-- The body of the loop over the compressible operators.
unfoldable pub sample_config :
    Sampler → Bool → OperatorInfo → ActionSpace → Sampled CompressionConfig
sample_config t allow_pruning op sp =
    let (precision, m) = sample_precision t op.name sp.allowed_precisions in
    let (prune_ratio, n) = sample_prune t allow_pruning op.name sp in
    let (fuse, k) = sample_fuse t op sp in
    (
      record {
        precision_level = precision;
        prune_ratio = prune_ratio;
        fuse_enabled = fuse;
        approx_rank = none;
      },
      m + n + k,
    )

abbrev add_actions :
    OperatorInfo
    → Sampled CompressionConfig
    → Sampled (List ConcreteAction)
    → Sampled (List ConcreteAction)
add_actions op (config, n) (actions, m) =
    ((if is_no_compression config then [] else translate op config) ++ actions, n + m)

-- The actions of one objective evaluation, and the `suggest_*` calls that they took. The source keys the
-- configurations by the names of the operators, which are taken to be different.
unfoldable pub sample_actions :
    Sampler
    → (OperatorInfo → ActionSpace)
    → Bool
    → List OperatorInfo
    → Sampled (List ConcreteAction)
unfolding sample_config
sample_actions t spaces allow_pruning [] = ([], 0)
sample_actions t spaces allow_pruning (op ∷ ops) =
    add_actions op (sample_config t allow_pruning op (spaces op))
      (sample_actions t spaces allow_pruning ops)
