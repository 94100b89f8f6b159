-- ===== src/Compression/Actions.antt =====
-- astra/core/compression_actions.py: precision levels, configurations and action spaces.
use astra_back.Prelude.{
  ℕ, ◌*◌, min, Bool, true, false, not, ◌&&◌, Option, none, some, List, [], ◌∷◌, ltb, leb, ◌==◌,
  is_some, keep_if, if◌then◌else◌,
}
pub use astra_back.Graph.{
  OperatorCategory, dense_compute, normalization, activation, pooling, embedding, tree_ensemble,
  linear_model, svm, preprocessing, data_movement, other, OperatorInfo,
}

pub data PrecisionLevel : Type 0 where
  fp32 fp16 int8 int4 : PrecisionLevel

-- The integer of the `IntEnum`.
abbrev pub level : PrecisionLevel → ℕ
level fp32 = 0
level fp16 = 1
level int8 = 2
level int4 = 3

pub record CompressionConfig : Type 0 where
  pub precision_level : PrecisionLevel
  pub prune_ratio : ℕ
  pub fuse_enabled : Bool
  pub approx_rank : Option ℕ

unfoldable pub is_no_compression : CompressionConfig → Bool
is_no_compression c =
    (level c.precision_level == 0)
    && (c.prune_ratio == 0)
    && not c.fuse_enabled
    && not (is_some c.approx_rank)

pub record ActionSpace : Type 0 where
  pub operator_name : ℕ
  pub category : OperatorCategory
  pub allowed_precisions : List PrecisionLevel
  pub prune_lo : ℕ
  pub prune_hi : ℕ
  pub fuse_available : Bool
  pub approx_rank_range : Option (ℕ × ℕ)

-- A template of `_CATEGORY_ACTION_TEMPLATES`, at the operator that asks for it.
abbrev space_of : OperatorInfo → List PrecisionLevel → ℕ → Bool → Option (ℕ × ℕ) → ActionSpace
space_of op precisions prune_hi fuse ranks = record {
  operator_name = op.name;
  category = op.category;
  allowed_precisions = precisions;
  prune_lo = 0;
  prune_hi = prune_hi;
  fuse_available = fuse;
  approx_rank_range = ranks;
}

-- `none` is a category that the table does not have.
abbrev template : OperatorCategory → OperatorInfo → Option ActionSpace
template dense_compute op = some (space_of op (fp32 ∷ fp16 ∷ int8 ∷ []) 9 true (some (1, 512)))
template normalization op = some (space_of op (fp32 ∷ fp16 ∷ []) 0 true none)
template activation op = some (space_of op (fp32 ∷ []) 0 true none)
template embedding op = some (space_of op (fp32 ∷ fp16 ∷ int8 ∷ []) 5 false (some (1, 256)))
template tree_ensemble op = some (space_of op (fp32 ∷ fp16 ∷ []) 9 true (some (1, 50)))
template linear_model op = some (space_of op (fp32 ∷ fp16 ∷ int8 ∷ []) 8 false none)
template svm op = some (space_of op (fp32 ∷ fp16 ∷ []) 8 false none)
template _ op = none

abbrev or_fp32 : List PrecisionLevel → List PrecisionLevel
or_fp32 [] = fp32 ∷ []
or_fp32 (p ∷ ps) = p ∷ ps

-- The block under `if protected:`.
restrict_protected : ActionSpace → ActionSpace
restrict_protected s = record s {
  allowed_precisions = or_fp32 (keep_if (λ p. leb (level p) 1) s.allowed_precisions);
  prune_hi = min s.prune_hi 3;
}

-- `max(allowed_precisions)`
abbrev pub best_precision : List PrecisionLevel → PrecisionLevel → PrecisionLevel
best_precision [] best = best
best_precision (p ∷ ps) best = best_precision ps (if ltb (level best) (level p) then p else best)

abbrev best_of : List PrecisionLevel → List PrecisionLevel
best_of [] = []
best_of (p ∷ ps) = best_precision ps p ∷ []

-- The block of the operators that hold too few bytes to matter.
collapse_tiny : Bool → ActionSpace → ActionSpace
collapse_tiny protected s = record s {
  allowed_precisions = if protected then fp32 ∷ [] else best_of s.allowed_precisions;
  prune_lo = 0;
  prune_hi = 0;
  fuse_available = false;
  approx_rank_range = none;
}

-- `param_share < TINY_OP_BYTES_SHARE` at the share `count / total`.
abbrev pub is_tiny : Option (ℕ × ℕ) → Bool
is_tiny none = false
is_tiny (some (count, total)) = ltb (count * 1000) (5 * total)

abbrev pub holds_weights : OperatorCategory → Bool
holds_weights dense_compute = true
holds_weights embedding = true
holds_weights _ = false

-- Rank-based protection, or the legacy threshold where no flag is passed.
abbrev pub protects : Option ℕ → ℕ → Option Bool → Bool
protects _ _ (some flag) = flag
protects none _ none = false
protects (some sensitivity) threshold none = ltb threshold sensitivity

abbrev shaped : Bool → Bool → ActionSpace → ActionSpace
shaped protected tiny s =
    let s' = if protected then restrict_protected s else s in
    if tiny then collapse_tiny protected s' else s'

unfoldable pub get_action_space :
    OperatorInfo → Option ℕ → ℕ → Option Bool → Option (ℕ × ℕ) → ActionSpace
unfolding restrict_protected collapse_tiny
get_action_space op sensitivity threshold is_protected param_share =
    elim (template op.category op) [
      | none ↦ space_of op (fp32 ∷ []) 0 false none
      | some s ↦
          shaped (protects sensitivity threshold is_protected)
            (is_tiny param_share && holds_weights op.category) s
    ]
