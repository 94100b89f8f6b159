-- ===== src/Tests/Architecture.antt =====
-- A graph of four nodes, and the places of its operators.
use astra_back.Prelude.{ℕ, ◌<◌, ◌≡◌, ◌≢◌, refl, some, List, [], ◌∷◌, arith, Dict, get, or_else, occ}
use astra_back.Architecture.{NodePos, preds_of, depths, place_at, compute_layout}
use astra_back.Architecture.Depths.{IsSorted, IsLongest, depths-IsLongest}
use astra_back.Architecture.Places.{compute_layout_distinct}

abbrev diamond : List ℕ
diamond = 1 ∷ 2 ∷ 3 ∷ 4 ∷ []

-- The edge to 9 leaves the kept nodes.
abbrev diamond_edges : List (ℕ × ℕ)
diamond_edges = (1, 2) ∷ (1, 3) ∷ (2, 3) ∷ (3, 4) ∷ (1, 4) ∷ (2, 9) ∷ []

diamond_runs :
    depths (preds_of diamond diamond_edges) diamond []
    ≡ some ((1, 0) ∷ (2, 1) ∷ (3, 2) ∷ (4, 3) ∷ [])
unfolding depths
diamond_runs = refl

diamond-IsSorted : IsSorted (preds_of diamond diamond_edges) [] diamond
diamond-IsSorted = ground arith

depths-IsLongest_example :
    (d : Dict ℕ) × (depths (preds_of diamond diamond_edges) diamond [] ≡ some d)
    × ((n : ℕ) → 0 < occ n diamond → IsLongest (preds_of diamond diamond_edges) d n)
depths-IsLongest_example = depths-IsLongest diamond diamond_edges diamond-IsSorted

-- Five operators behind one, which are drawn in a grid of three columns.
abbrev fan : List ℕ
fan = 1 ∷ 2 ∷ 3 ∷ 4 ∷ 5 ∷ 6 ∷ []

abbrev fan_edges : List (ℕ × ℕ)
fan_edges = (1, 2) ∷ (1, 3) ∷ (1, 4) ∷ (1, 5) ∷ (1, 6) ∷ []

abbrev fan_layout : Dict NodePos
fan_layout = or_else [] (compute_layout fan fan_edges [])

compute_layout_distinct_example :
    (p : NodePos) × (q : NodePos) × (get 2 fan_layout ≡ some p)
    × (get 6 fan_layout ≡ some q)
    × (p ≢ q)
unfolding compute_layout depths place_at
compute_layout_distinct_example =
    compute_layout_distinct fan fan_edges [] fan_layout refl 2 6 (omega arith) (omega arith)
      (ground arith)
