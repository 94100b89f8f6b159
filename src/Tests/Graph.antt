-- ===== src/Tests/Graph.antt =====
-- A graph of two nodes, its order, a request that is tried again, and the buckets of an hour.
use astra_back.Prelude.{
  ℕ, suc, ◌+◌, ◌-◌, ◌<◌, ◌≤◌, ◌≡◌, refl, arith, List, [], ◌∷◌, ◌==◌, length, occ, max, Text, codes,
  if◌then◌else◌,
}
use astra_back.Store.{Db}
use astra_back.Graph.{NodeProto, names_of, build_adjacency, topological_sort}
use astra_back.Graph.Sorted.{Precedes}
use astra_back.Graph.Edges.{topological_sort_orders, topological_sort_complete}
use astra_back.Sdk.{Exchange, response, request}
use astra_back.Sdk.Retries.{IsRequest, request-IsRequest}
use astra_back.Telemetry.{event_row}
use astra_back.Aggregates.{bucket_raw, fetch_events, window_of}
use astra_back.Aggregates.Totals.{total_count, bucket_raw-total}
use astra_back.Tests.Fixtures.{clock, empty_db, serving, serving_model}
use astra_back.Tests.Telemetry.{event_at}

-- The activation, which has no name of its own, stands before the convolution that feeds it.
abbrev two_nodes : List NodeProto
two_nodes =
    record {
      name = 0;
      op_type = codes "Relu";
      domain = [];
      input = 12 ∷ [];
      output = 13 ∷ [];
      int_attributes = [];
    }
    ∷ record {
      name = 3;
      op_type = codes "Conv";
      domain = [];
      input = 10 ∷ 11 ∷ [];
      output = 12 ∷ [];
      int_attributes = [];
    }
    ∷ []

abbrev generated : Text → ℕ → ℕ
generated op_type index = 100 + index

abbrev two_names : List ℕ
two_names = names_of generated 0 two_nodes

topological_sort_orders_example :
    Precedes two_names
      (build_adjacency generated two_nodes)
      []
      (topological_sort two_names (build_adjacency generated two_nodes))
    × ((v : ℕ) → occ v (topological_sort two_names (build_adjacency generated two_nodes)) ≤ 1)
    × ((v : ℕ)
        → 0 < occ v (topological_sort two_names (build_adjacency generated two_nodes))
        → 0 < occ v two_names)
topological_sort_orders_example = topological_sort_orders generated two_nodes

abbrev rank : ℕ → ℕ
rank n = if n == 3 then 0 else 1

topological_sort_complete_example :
    occ 100 (topological_sort two_names (build_adjacency generated two_nodes)) ≡ 1
topological_sort_complete_example =
    topological_sort_complete generated two_nodes rank
      (((λ p e. ground arith), tt), (((λ p e. cc), ((λ p e. cc), tt)), tt)) 100 (omega arith)

-- A server that is busy once.
abbrev busy_once : ℕ → Exchange × ℕ
busy_once w = (response (if w == 0 then 503 else 200), suc w)

request-IsRequest_example :
    IsRequest 30_000 (max 1 2) (request busy_once (λ attempt. 17) 30_000 2 0)
request-IsRequest_example = request-IsRequest busy_once (λ attempt. 17) 30_000 2 0

abbrev hour_db : Db
hour_db = record empty_db {
  events =
      event_row serving serving_model (codes "sdk_1") (event_at 3_000_000)
      ∷ event_row serving serving_model (codes "sdk_1") (event_at 9_000)
      ∷ [];
}

bucket_raw-total_example :
    total_count (bucket_raw clock 7 (codes "1h") 3_700_000 hour_db)
    ≡ length (fetch_events clock 7 (3_700_000 - (window_of (codes "1h")).0) 3_700_000 hour_db)
unfolding window_of
bucket_raw-total_example =
    bucket_raw-total clock 7 (codes "1h") 3_700_000 hour_db (omega arith)
      ((3_000_000, refl), ((9_000, refl), tt))
