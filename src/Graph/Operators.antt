-- ===== src/Graph/Operators.antt =====
-- astra/graph/onnx_analyzer.py: what is known of one operator. The name of a node or of a tensor is a
-- number, since it is only compared, and the empty name is 0; a dimension is none where it is symbolic.
use astra_back.Prelude.{ℕ, Bool, Option, List, Text}

pub data OperatorCategory : Type 0 where
  dense_compute normalization activation pooling embedding tree_ensemble linear_model svm
        preprocessing data_movement other :
      OperatorCategory

abbrev pub Shape : Type 0
Shape = List (Option ℕ)

pub record OperatorInfo : Type 0 where
  pub name : ℕ
  pub op_type : Text
  pub domain : Text
  pub category : OperatorCategory
  pub input_names : List ℕ
  pub output_names : List ℕ
  pub input_shapes : List (Option Shape)
  pub output_shapes : List (Option Shape)
  pub param_count : ℕ
  pub flops_estimate : ℕ
  pub is_compressible : Bool
  pub topo_index : Option ℕ
