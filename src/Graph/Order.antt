-- ===== src/Graph/Order.antt =====
-- astra/graph/onnx_analyzer.py: the order of the operators. A name is a number, since it is only
-- compared; the empty name is 0.
use astra_back.Prelude.{
  ℕ, zero, suc, ◌-◌, Option, none, some, List, [], ◌∷◌, ◌++◌, ◌==◌, length, Dict, get, set, or_else,
  if◌then◌else◌,
}

-- The successors of a node: `adjacency.get(node, [])`
abbrev pub succs : Dict (List ℕ) → ℕ → List ℕ
succs adjacency u = or_else [] (get u adjacency)

-- `{op.name: 0 for op in operators}`
abbrev pub zeroed : List ℕ → Dict ℕ → Dict ℕ
zeroed [] d = d
zeroed (n ∷ ns) d = zeroed ns (set n 0 d)

abbrev pub bumped : ℕ → Option ℕ → Dict ℕ → Dict ℕ
bumped n none d = d
bumped n (some k) d = set n (suc k) d

abbrev pub bump_all : List ℕ → Dict ℕ → Dict ℕ
bump_all [] d = d
bump_all (n ∷ ns) d = bump_all ns (bumped n (get n d) d)

abbrev pub count_edges : Dict (List ℕ) → Dict ℕ → Dict ℕ
count_edges [] d = d
count_edges ((u, ns) ∷ adjacency) d = count_edges adjacency (bump_all ns d)

abbrev pub sources : Dict ℕ → List ℕ
sources [] = []
sources ((n, k) ∷ d) = let rest = sources d in if k == 0 then n ∷ rest else rest

-- The degrees and the queue, whose head is in front.
pub record Front : Type 0 where
  pub in_degree : Dict ℕ
  pub queue : List ℕ

-- The degree falls to 0 where it was 1; in the source it would fall below 0 where it was 0.
abbrev pub lowered : ℕ → Option ℕ → Front → Front
lowered n none f = f
lowered n (some k) f = record {
  in_degree = set n (k - 1) f.in_degree;
  queue = if k == 1 then f.queue ++ n ∷ [] else f.queue;
}

unfoldable pub relax : List ℕ → Front → Front
relax [] f = f
relax (n ∷ ns) f = relax ns (lowered n (get n f.in_degree) f)

-- The `while` loop: what is left in the queue, and the result.
unfoldable pub sort_loop : ℕ → Dict (List ℕ) → Front → List ℕ → Front × List ℕ
sort_loop zero adjacency f result = (f, result)
sort_loop (suc fuel) adjacency f result = elim f.queue [
  | [] ↦ (f, result)
  | n ∷ rest ↦
      sort_loop fuel adjacency
        (relax (succs adjacency n) (record { in_degree = f.in_degree; queue = rest }))
        (result ++ n ∷ [])
]

abbrev pub start_degrees : List ℕ → Dict (List ℕ) → Dict ℕ
start_degrees names adjacency = count_edges adjacency (zeroed names [])

abbrev pub start_front : List ℕ → Dict (List ℕ) → Front
start_front names adjacency =
    let d = start_degrees names adjacency in record { in_degree = d; queue = sources d }

-- A round takes a name off the queue, and no name is queued twice.
unfoldable pub topological_sort : List ℕ → Dict (List ℕ) → List ℕ
topological_sort names adjacency =
    (sort_loop (length names) adjacency (start_front names adjacency) []).1
