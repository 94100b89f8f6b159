-- ===== src/Graph/Nodes.antt =====
-- astra/graph/onnx_analyzer.py: what is read off one node. The text `f"{op_type}_{index}"` of an
-- unnamed node is a parameter.
use astra_back.Prelude.{
  ℕ, ◌+◌, ◌*◌, ◌/◌, max, Bool, ◌||◌, Option, none, some, List, [], ◌∷◌, ◌==◌, drop, reverse, map,
  Text, text_eq, codes, Dict, get, if◌then◌else◌,
}
use astra_back.Graph.Operators.{Shape, OperatorInfo}
use astra_back.Graph.Categories.{classify_operator, in_compressible_categories}

-- Of the attributes, the integers. A shape that was not inferred is missing from the map of shapes.
pub record NodeProto : Type 0 where
  pub name : ℕ
  pub op_type : Text
  pub domain : Text
  pub input : List ℕ
  pub output : List ℕ
  pub int_attributes : List (Text × ℕ)

-- The weights by their shapes, and the known shapes of tensors.
pub record Tensors : Type 0 where
  pub initializers : Dict (List ℕ)
  pub shapes : Dict Shape

-- `node.name or f"{node.op_type}_{index}"`
abbrev pub node_name : (Text → ℕ → ℕ) → ℕ → NodeProto → ℕ
node_name generated i node = if node.name == 0 then generated node.op_type i else node.name

-- `np.prod`
abbrev pub product : List ℕ → ℕ
product [] = 1
product (n ∷ ns) = n * product ns

-- `max(d, 1)`
abbrev at_least_one : Option ℕ → ℕ
at_least_one none = 1
at_least_one (some d) = max d 1

abbrev volume : Shape → ℕ
volume dims = product (map at_least_one dims)

abbrev size_of : Option (List ℕ) → ℕ
size_of none = 0
size_of (some dims) = product dims

abbrev pub count_params : Tensors → List ℕ → ℕ
count_params t [] = 0
count_params t (i ∷ is) = size_of (get i t.initializers) + count_params t is

-- `output_shapes[0]`, unless it is unknown or empty
abbrev first_shape : List (Option Shape) → Option Shape
first_shape (some (d ∷ ds) ∷ rest) = some (d ∷ ds)
first_shape _ = none

abbrev group_of : ℕ → List (Text × ℕ) → ℕ
group_of g [] = g
group_of g ((k, i) ∷ attributes) = group_of (if text_eq k (codes "group") then i else g) attributes

-- `input[1]`, where there is one and it is a weight
abbrev weight_of : Tensors → List ℕ → Option (List ℕ)
weight_of t (i ∷ w ∷ is) = if w == 0 then none else get w t.initializers
weight_of t _ = none

-- An exception is `none`: a weight with less than two dimensions, or a group of 0.
abbrev conv_with : ℕ → Shape → Option (List ℕ) → Option ℕ
conv_with group shape none = some 0
conv_with group shape (some (c_out ∷ c_in ∷ kernel)) =
    if group == 0
    then none
    else some (2 * volume (drop 2 shape) * product kernel * (c_in / group) * c_out)
conv_with group shape (some _) = none

abbrev conv_flops : Tensors → NodeProto → Option Shape → Option ℕ
conv_flops t node none = some 0
conv_flops t node (some shape) =
    conv_with (group_of 1 node.int_attributes) shape (weight_of t node.input)

-- `2 * batch * m * k * n`, from the reversed shapes
abbrev matmul_of : Shape → Shape → ℕ
matmul_of (k ∷ m ∷ batch) (n ∷ b ∷ bs) =
    2 * volume (reverse batch) * at_least_one m * at_least_one k * at_least_one n
matmul_of _ _ = 0

abbrev matmul_flops : List (Option Shape) → ℕ
matmul_flops (some a ∷ some b ∷ rest) = matmul_of (reverse a) (reverse b)
matmul_flops _ = 0

abbrev is_op : NodeProto → Text → Bool
is_op node t = text_eq node.op_type t

abbrev norm_flops : Option Shape → ℕ
norm_flops none = 0
norm_flops (some shape) = volume shape * 4

unfoldable pub estimate_flops :
    Tensors → NodeProto → List (Option Shape) → List (Option Shape) → Option ℕ
estimate_flops t node input_shapes output_shapes =
    if is_op node (codes "Conv") || is_op node (codes "ConvTranspose")
    then conv_flops t node (first_shape output_shapes)
    else if is_op node (codes "MatMul") || is_op node (codes "Gemm")
    then some (matmul_flops input_shapes)
    else if is_op node (codes "BatchNormalization") || is_op node (codes "LayerNormalization")
    then some (norm_flops (first_shape output_shapes))
    else some 0

-- `node.domain or "ai.onnx"`
abbrev domain_of : Text → Text
domain_of [] = codes "ai.onnx"
domain_of (c ∷ s) = c ∷ s

abbrev shapes_of : Tensors → List ℕ → List (Option Shape)
shapes_of t names = map (λ n. get n t.shapes) names

abbrev pub operator_of : (Text → ℕ → ℕ) → Tensors → ℕ → NodeProto → ℕ → OperatorInfo
operator_of generated t i node flops =
    let category = classify_operator node.op_type (domain_of node.domain) in
    record {
      name = node_name generated i node;
      op_type = node.op_type;
      domain = domain_of node.domain;
      category = category;
      input_names = node.input;
      output_names = node.output;
      input_shapes = shapes_of t node.input;
      output_shapes = shapes_of t node.output;
      param_count = count_params t node.input;
      flops_estimate = flops;
      is_compressible = in_compressible_categories category;
      topo_index = none;
    }

abbrev with_flops : (Text → ℕ → ℕ) → Tensors → ℕ → NodeProto → Option ℕ → Option OperatorInfo
with_flops generated t i node none = none
with_flops generated t i node (some flops) = some (operator_of generated t i node flops)

unfoldable pub analyze_node : (Text → ℕ → ℕ) → Tensors → ℕ → NodeProto → Option OperatorInfo
analyze_node generated t i node =
    with_flops generated t i node
      (estimate_flops t node (shapes_of t node.input) (shapes_of t node.output))
