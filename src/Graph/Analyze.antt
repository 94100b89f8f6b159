-- ===== src/Graph/Analyze.antt =====
-- astra/graph/onnx_analyzer.py: the edges between the nodes, and the analysis of the whole graph.
use astra_back.Prelude.{
  ℕ, suc, ◌+◌, not, is_some, Option, none, some, List, [], ◌∷◌, ◌++◌, ◌==◌, keep_if, map, Text,
  Dict, get, set, or_else, occ, if◌then◌else◌,
}
use astra_back.Graph.Operators.{OperatorInfo}
use astra_back.Graph.Nodes.{NodeProto, Tensors, node_name, analyze_node}
use astra_back.Graph.Order.{topological_sort}

-- `for out in node.output: if out: output_to_node[out] = name`
abbrev pub produce : ℕ → List ℕ → Dict ℕ → Dict ℕ
produce name [] d = d
produce name (out ∷ outs) d = produce name outs (if out == 0 then d else set out name d)

-- `if name not in adjacency[producer]: adjacency[producer].append(name)`
abbrev pub append_new : ℕ → List ℕ → List ℕ
append_new name ns = if occ name ns == 0 then ns ++ name ∷ [] else ns

abbrev pub link : ℕ → Option ℕ → Dict (List ℕ) → Dict (List ℕ)
link name none adjacency = adjacency
link name (some producer) adjacency =
    set producer (append_new name (or_else [] (get producer adjacency))) adjacency

abbrev pub link_inputs : ℕ → List ℕ → Dict ℕ → Dict (List ℕ) → Dict (List ℕ)
link_inputs name [] d adjacency = adjacency
link_inputs name (i ∷ is) d adjacency = link_inputs name is d (link name (get i d) adjacency)

module _ (generated : Text → ℕ → ℕ) where
  abbrev pub producers : ℕ → List NodeProto → Dict ℕ → Dict ℕ
  producers i [] d = d
  producers i (node ∷ nodes) d =
      producers (suc i) nodes (produce (node_name generated i node) node.output d)

  abbrev pub isolated : ℕ → List NodeProto → Dict (List ℕ) → Dict (List ℕ)
  isolated i [] adjacency = adjacency
  isolated i (node ∷ nodes) adjacency =
      isolated (suc i) nodes (set (node_name generated i node) [] adjacency)

  abbrev pub link_all : ℕ → List NodeProto → Dict ℕ → Dict (List ℕ) → Dict (List ℕ)
  link_all i [] d adjacency = adjacency
  link_all i (node ∷ nodes) d adjacency =
      link_all (suc i) nodes d (link_inputs (node_name generated i node) node.input d adjacency)

  unfoldable pub build_adjacency : List NodeProto → Dict (List ℕ)
  build_adjacency nodes = link_all 0 nodes (producers 0 nodes []) (isolated 0 nodes [])

  -- The names of the operators, one for each node.
  abbrev pub names_of : ℕ → List NodeProto → List ℕ
  names_of i [] = []
  names_of i (node ∷ nodes) = node_name generated i node ∷ names_of (suc i) nodes

  abbrev analyze_nodes : Tensors → ℕ → List NodeProto → Option (List OperatorInfo)
  analyze_nodes t i [] = some []
  analyze_nodes t i (node ∷ nodes) =
      both (analyze_node generated t i node) (analyze_nodes t (suc i) nodes)
    where
      both : Option OperatorInfo → Option (List OperatorInfo) → Option (List OperatorInfo)
      both (some op) (some ops) = some (op ∷ ops)
      both _ _ = none

-- `op.topo_index = idx` at the first operator of that name
abbrev place : ℕ → ℕ → List OperatorInfo → List OperatorInfo
place name idx [] = []
place name idx (op ∷ ops) =
    let rest = place name idx ops in
    if op.name == name then record op { topo_index = some idx } ∷ ops else op ∷ rest

abbrev place_all : ℕ → List ℕ → List OperatorInfo → List OperatorInfo
place_all idx [] ops = ops
place_all idx (name ∷ names) ops = place_all (suc idx) names (place name idx ops)

pub record GraphProto : Type 0 where
  pub nodes : List NodeProto
  pub input : List ℕ
  pub output : List ℕ

pub record GraphInfo : Type 0 where
  pub operators : List OperatorInfo
  pub adjacency : Dict (List ℕ)
  pub topo_order : List ℕ
  pub input_names : List ℕ
  pub output_names : List ℕ
  pub total_params : ℕ
  pub total_flops : ℕ

abbrev pub compressible_operators : GraphInfo → List OperatorInfo
compressible_operators info = keep_if (λ op. op.is_compressible) info.operators

abbrev total : (OperatorInfo → ℕ) → List OperatorInfo → ℕ
total f [] = 0
total f (op ∷ ops) = f op + total f ops

abbrev info_of : (Text → ℕ → ℕ) → Tensors → GraphProto → List OperatorInfo → GraphInfo
info_of generated t graph ops =
    let adjacency = build_adjacency generated graph.nodes in
    let order = topological_sort (map (λ op. op.name) ops) adjacency in
    record {
      operators = place_all 0 order ops;
      adjacency = adjacency;
      topo_order = order;
      input_names = keep_if (λ i. not (is_some (get i t.initializers))) graph.input;
      output_names = graph.output;
      total_params = total (λ op. op.param_count) ops;
      total_flops = total (λ op. op.flops_estimate) ops;
    }

abbrev info_if :
    (Text → ℕ → ℕ) → Tensors → GraphProto → Option (List OperatorInfo) → Option GraphInfo
info_if generated t graph none = none
info_if generated t graph (some ops) = some (info_of generated t graph ops)

-- `none` where an exception ends it.
unfoldable pub analyze : (Text → ℕ → ℕ) → Tensors → GraphProto → Option GraphInfo
unfolding build_adjacency topological_sort analyze_node
analyze generated t graph = info_if generated t graph (analyze_nodes generated t 0 graph.nodes)
