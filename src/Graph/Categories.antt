-- ===== src/Graph/Categories.antt =====
-- astra/graph/onnx_analyzer.py: the category of an operator, by its type and its domain.
use astra_back.Prelude.{
  Bool, true, false, ◌||◌, Option, none, some, List, [], ◌∷◌, Text, text_eq, codes, length, take,
  if◌then◌else◌,
}
use astra_back.Graph.Operators.{
  OperatorCategory, dense_compute, normalization, activation, pooling, embedding, tree_ensemble,
  linear_model, svm, preprocessing, data_movement, other,
}

-- `_CATEGORY_MAP`
abbrev category_map : List (Text × OperatorCategory)
category_map =
    (codes "Conv", dense_compute)
    ∷ (codes "ConvTranspose", dense_compute)
    ∷ (codes "MatMul", dense_compute)
    ∷ (codes "Gemm", dense_compute)
    ∷ (codes "MatMulInteger", dense_compute)
    ∷ (codes "ConvInteger", dense_compute)
    ∷ (codes "BatchNormalization", normalization)
    ∷ (codes "LayerNormalization", normalization)
    ∷ (codes "InstanceNormalization", normalization)
    ∷ (codes "GroupNormalization", normalization)
    ∷ (codes "Relu", activation)
    ∷ (codes "LeakyRelu", activation)
    ∷ (codes "Sigmoid", activation)
    ∷ (codes "Tanh", activation)
    ∷ (codes "Gelu", activation)
    ∷ (codes "Selu", activation)
    ∷ (codes "Softmax", activation)
    ∷ (codes "Elu", activation)
    ∷ (codes "AveragePool", pooling)
    ∷ (codes "MaxPool", pooling)
    ∷ (codes "GlobalAveragePool", pooling)
    ∷ (codes "GlobalMaxPool", pooling)
    ∷ (codes "Gather", embedding)
    ∷ (codes "GatherElements", embedding)
    ∷ (codes "Reshape", data_movement)
    ∷ (codes "Transpose", data_movement)
    ∷ (codes "Concat", data_movement)
    ∷ (codes "Split", data_movement)
    ∷ (codes "Slice", data_movement)
    ∷ (codes "Pad", data_movement)
    ∷ (codes "Flatten", data_movement)
    ∷ (codes "Squeeze", data_movement)
    ∷ (codes "Unsqueeze", data_movement)
    ∷ (codes "TreeEnsembleClassifier", tree_ensemble)
    ∷ (codes "TreeEnsembleRegressor", tree_ensemble)
    ∷ (codes "TreeEnsemble", tree_ensemble)
    ∷ (codes "LinearClassifier", linear_model)
    ∷ (codes "LinearRegressor", linear_model)
    ∷ (codes "SVMClassifier", svm)
    ∷ (codes "SVMRegressor", svm)
    ∷ (codes "Normalizer", preprocessing)
    ∷ (codes "Scaler", preprocessing)
    ∷ (codes "OneHotEncoder", preprocessing)
    ∷ (codes "LabelEncoder", preprocessing)
    ∷ (codes "Binarizer", preprocessing)
    ∷ (codes "Imputer", preprocessing)
    ∷ (codes "ZipMap", preprocessing)
    ∷ []

-- `map.get(op_type)`
abbrev looked_up : {A : Type 0} → Text → List (Text × A) → Option A
looked_up t [] = none
looked_up t ((k, a) ∷ rows) = if text_eq k t then some a else looked_up t rows

-- `category in COMPRESSIBLE_CATEGORIES`
abbrev pub in_compressible_categories : OperatorCategory → Bool
in_compressible_categories dense_compute = true
in_compressible_categories normalization = true
in_compressible_categories activation = true
in_compressible_categories embedding = true
in_compressible_categories tree_ensemble = true
in_compressible_categories linear_model = true
in_compressible_categories svm = true
in_compressible_categories _ = false

abbrev is_prefix : Text → Text → Bool
is_prefix t s = text_eq (take (length t) s) t

-- `t in s`
abbrev pub occurs_in : Text → Text → Bool
occurs_in t [] = text_eq t []
occurs_in t (c ∷ s) = is_prefix t (c ∷ s) || occurs_in t s

abbrev pub ml_domain : Text
ml_domain = codes "ai.onnx.ml"

abbrev by_domain : Text → Text → OperatorCategory
by_domain op_type domain =
    if text_eq domain ml_domain
    then (if occurs_in (codes "Tree") op_type
        then tree_ensemble
        else if occurs_in (codes "Linear") op_type
        then linear_model
        else if occurs_in (codes "SVM") op_type
        then svm
        else preprocessing)
    else other

abbrev or_category : OperatorCategory → Option OperatorCategory → OperatorCategory
or_category c none = c
or_category c (some d) = d

unfoldable pub classify_operator : Text → Text → OperatorCategory
classify_operator op_type domain =
    or_category (by_domain op_type domain) (looked_up op_type category_map)
