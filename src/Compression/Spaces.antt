-- ===== src/Compression/Spaces.antt =====
-- What every action space guarantees to the search that samples it (`get_action_space`).
use astra_back.Prelude.{
  ℕ, ◌≤◌, ◌<◌, ◌≡◌, Bool, true, false, Option, [], ◌∷◌, length, All, arith, if◌then◌else◌,
}
use astra_back.Compression.Actions.{
  OperatorInfo, level, ActionSpace, get_action_space, protects, is_tiny, holds_weights, fp32, int8,
}

-- A space that can be sampled: a precision to choose, none below INT8, and a range of ratios.
pub record IsSound (s : ActionSpace) : Type 0 where
  pub nonempty : 0 < length s.allowed_precisions
  pub no_int4 : All (λ p. level p ≤ 2) s.allowed_precisions
  pub ordered : s.prune_lo ≤ s.prune_hi
  pub bounded : s.prune_hi ≤ 9

module _ (op : OperatorInfo) (sensitivity : Option ℕ) (threshold : ℕ) (is_protected : Option Bool)
    (param_share : Option (ℕ × ℕ)) where
  -- Whatever the operator, its sensitivity and its share of the bytes, the space can be sampled:
  -- it has a precision, never INT4, and a range of pruning ratios from a lower to an upper end
  -- that is at most 0.9.
  pub get_action_space-IsSound :
      IsSound (get_action_space op sensitivity threshold is_protected param_share)
  unfolding get_action_space
  get_action_space-IsSound = record {
    nonempty = ground arith;
    no_int4 = ground arith;
    ordered = ground arith;
    bounded = ground arith;
  }

  -- A protected operator, by its flag or by the legacy threshold, is offered FP32 and FP16 at
  -- most, and is pruned by at most 0.3.
  pub get_action_space_protected :
      protects sensitivity threshold is_protected ≡ true
      → let s = get_action_space op sensitivity threshold is_protected param_share in
        All (λ p. level p ≤ 1) s.allowed_precisions × (s.prune_hi ≤ 3)
  unfolding get_action_space
  get_action_space_protected h = (ground arith, ground arith)

  -- A dense or embedding operator that holds less than 0.5% of the parameters is not searched: its
  -- one precision is FP32 if it is protected and INT8 if not, and it is neither pruned nor fused.
  pub get_action_space_tiny :
      is_tiny param_share ≡ true
      → holds_weights op.category ≡ true
      → let s = get_action_space op sensitivity threshold is_protected param_share in
        (s.allowed_precisions
          ≡ (if protects sensitivity threshold is_protected then fp32 else int8) ∷ [])
        × (s.prune_hi ≡ 0)
        × (s.fuse_available ≡ false)
  unfolding get_action_space
  get_action_space_tiny tiny weights = (ground arith, ground arith, ground arith)
