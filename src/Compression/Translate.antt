-- ===== src/Compression/Translate.antt =====
-- astra/core/compression_actions.py: `ActionTranslator`, one function per operator category.
use astra_back.Prelude.{ℕ, Text, Bool, Option, none, some, List, [], ◌∷◌, ltb, leb, if◌then◌else◌}
use astra_back.Compression.Actions.{
  OperatorCategory, dense_compute, normalization, activation, embedding, tree_ensemble,
  linear_model, svm, OperatorInfo, PrecisionLevel, level, CompressionConfig, is_no_compression,
}

pub data ActionType : Type 0 where
  quantization channel_pruning operator_fusion low_rank_svd bn_fusion param_quantization
        activation_fusion embedding_quantization vocabulary_pruning embedding_dimension_reduction
        leaf_quantization tree_pruning leaf_merging depth_limiting coefficient_quantization
        feature_pruning sv_coefficient_quantization support_vector_pruning :
      ActionType

pub data QuantMethod : Type 0 where
  static cast : QuantMethod

-- The `parameters` dictionary of an action.
pub data Parameters : Type 0 where
  no_parameters : Parameters
  target_dtype : PrecisionLevel → Parameters
  target_dtype_by : PrecisionLevel → QuantMethod → Parameters
  ratio rank max_depth : ℕ → Parameters

pub record ConcreteAction : Type 0 where
  pub operator_name : ℕ
  pub op_type : Text
  pub category : OperatorCategory
  pub action_type : ActionType
  pub parameters : Parameters

abbrev action : OperatorInfo → ActionType → Parameters → ConcreteAction
action op kind ps = record {
  operator_name = op.name;
  op_type = op.op_type;
  category = op.category;
  action_type = kind;
  parameters = ps;
}

-- `if test: actions.append(action)`, and then the rest.
abbrev append_if : Bool → ConcreteAction → List ConcreteAction → List ConcreteAction
append_if test a rest = if test then a ∷ rest else rest

abbrev append_rank : OperatorInfo → ActionType → (ℕ → Parameters) → Option ℕ → List ConcreteAction
append_rank op kind ps none = []
append_rank op kind ps (some r) = action op kind (ps r) ∷ []

abbrev is_quantized : CompressionConfig → Bool
is_quantized c = ltb 0 (level c.precision_level)

abbrev is_pruned : CompressionConfig → Bool
is_pruned c = ltb 0 c.prune_ratio

translate_neural : OperatorInfo → CompressionConfig → List ConcreteAction
translate_neural op c =
    let method = if leb 2 (level c.precision_level) then static else cast in
    append_if (is_quantized c) (action op quantization (target_dtype_by c.precision_level method)) (
      append_if (is_pruned c) (action op channel_pruning (ratio c.prune_ratio)) (
        append_if c.fuse_enabled (action op operator_fusion no_parameters)
          (append_rank op low_rank_svd rank c.approx_rank)))

translate_normalization : OperatorInfo → CompressionConfig → List ConcreteAction
translate_normalization op c =
    append_if c.fuse_enabled (action op bn_fusion no_parameters) (
      append_if (is_quantized c) (action op param_quantization (target_dtype c.precision_level)) [])

translate_activation : OperatorInfo → CompressionConfig → List ConcreteAction
translate_activation op c = append_if c.fuse_enabled (action op activation_fusion no_parameters) []

translate_embedding : OperatorInfo → CompressionConfig → List ConcreteAction
translate_embedding op c =
    append_if (is_quantized c) (action op embedding_quantization (target_dtype c.precision_level)) (
      append_if (is_pruned c) (action op vocabulary_pruning (ratio c.prune_ratio))
        (append_rank op embedding_dimension_reduction rank c.approx_rank))

translate_tree : OperatorInfo → CompressionConfig → List ConcreteAction
translate_tree op c =
    append_if (is_quantized c) (action op leaf_quantization (target_dtype c.precision_level)) (
      append_if (is_pruned c) (action op tree_pruning (ratio c.prune_ratio)) (
        append_if c.fuse_enabled (action op leaf_merging no_parameters)
          (append_rank op depth_limiting max_depth c.approx_rank)))

translate_linear : OperatorInfo → CompressionConfig → List ConcreteAction
translate_linear op c =
    append_if (is_quantized c) (action op coefficient_quantization (target_dtype c.precision_level))
      (append_if (is_pruned c) (action op feature_pruning (ratio c.prune_ratio)) [])

translate_svm : OperatorInfo → CompressionConfig → List ConcreteAction
translate_svm op c =
    append_if (is_quantized c)
      (action op sv_coefficient_quantization (target_dtype c.precision_level))
      (append_if (is_pruned c) (action op support_vector_pruning (ratio c.prune_ratio)) [])

-- The dispatch on the category, `translators.get(category)`.
translate_as : OperatorCategory → OperatorInfo → CompressionConfig → List ConcreteAction
unfolding translate_neural translate_normalization translate_activation translate_embedding
    translate_tree translate_linear translate_svm
translate_as dense_compute op c = translate_neural op c
translate_as normalization op c = translate_normalization op c
translate_as activation op c = translate_activation op c
translate_as embedding op c = translate_embedding op c
translate_as tree_ensemble op c = translate_tree op c
translate_as linear_model op c = translate_linear op c
translate_as svm op c = translate_svm op c
translate_as _ op c = []

unfoldable pub translate : OperatorInfo → CompressionConfig → List ConcreteAction
unfolding translate_as is_no_compression
translate op c = if is_no_compression c then [] else translate_as op.category op c
