-- ===== src/Compression/Coverage.antt =====
-- The action spaces and the translator of astra/core/compression_actions.py put together.
use astra_back.Prelude.{◌≤◌, ◌≡◌, true, none, ◌==◌, any, length, All, arith}
use astra_back.Compression.Actions.{
  OperatorInfo, level, CompressionConfig, is_no_compression, ActionSpace,
}
use astra_back.Compression.Translate.{ConcreteAction, translate}

-- A configuration that the search can sample from a space.
pub record InSpace (s : ActionSpace) (c : CompressionConfig) : Type 0 where
  pub offered : any (λ p. level p == level c.precision_level) s.allowed_precisions ≡ true
  pub pruned : c.prune_ratio ≤ s.prune_hi
  pub fused : c.fuse_enabled ≡ true → s.fuse_available ≡ true
  pub unranked : c.approx_rank ≡ none

-- What an action says of the operator and the configuration that it was made from.
pub record IsFor (op : OperatorInfo) (a : ConcreteAction) : Type 0 where
  pub named : a.operator_name ≡ op.name
  pub typed : a.op_type ≡ op.op_type
  pub categorized : a.category ≡ op.category

-- Every concrete action carries the name, the type and the category of its operator, and a
-- configuration that compresses nothing is translated to no action.
pub translate_tagged :
    (op : OperatorInfo) (c : CompressionConfig)
    → All (IsFor op) (translate op c) × (is_no_compression c ≡ true → length (translate op c) ≡ 0)
unfolding translate
translate_tagged op c = (ground arith, λ h. ground arith)
