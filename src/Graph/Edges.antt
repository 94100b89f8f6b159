-- ===== src/Graph/Edges.antt =====
-- The edges of a graph, and the order of its operators.
use mathlib.Core.Path.{subst}
use astra_back.Prelude.{
  ℕ, suc, ◌≤◌, ◌<◌, ◌≡◌, All, if-keeps, refl, arith, Option, none, some, List, [], ◌∷◌, ◌==◌, Text,
  Dict, get, set, or_else, occ, occ-append, get-set, same_id, Bool-cases, inl, inr, if◌then◌else◌,
}
use astra_back.Graph.Order.{succs, topological_sort}
use astra_back.Graph.Degrees.{same_key}
use astra_back.Graph.Nodes.{NodeProto, node_name}
use astra_back.Graph.Analyze.{
  produce, append_new, link, link_inputs, producers, isolated, link_all, build_adjacency, names_of,
}
use astra_back.Graph.Queue.{IsDict, set-IsDict}
use astra_back.Graph.Sorted.{Precedes, IsOrder, topological_sort-IsOrder}

link-IsDict :
    (name : ℕ) (o : Option ℕ) (adjacency : Dict (List ℕ))
    → IsDict adjacency
    → IsDict (link name o adjacency)
link-IsDict name none adjacency h = h
link-IsDict name (some p) adjacency h =
    set-IsDict p (append_new name (or_else [] (get p adjacency))) adjacency h

link_inputs-IsDict :
    (name : ℕ) (is : List ℕ) (d : Dict ℕ) (adjacency : Dict (List ℕ))
    → IsDict adjacency
    → IsDict (link_inputs name is d adjacency)
link_inputs-IsDict name [] d adjacency h = h
link_inputs-IsDict name (i ∷ is) d adjacency h =
    link_inputs-IsDict name is d (link name (get i d) adjacency)
      (link-IsDict name (get i d) adjacency h)

succs-set :
    (p u : ℕ) (ns : List ℕ) (adjacency : Dict (List ℕ))
    → succs (set p ns adjacency) u ≡ (if p == u then ns else succs adjacency u)
succs-set p u ns adjacency = ground (arith, get-set p u ns adjacency)

-- What each new edge and each old edge has, the edges of the result have.
module _ (P : ℕ → ℕ → Type 0) where
  abbrev OnEdges : Dict (List ℕ) → Type 0
  OnEdges adjacency = (u v : ℕ) → 0 < occ v (succs adjacency u) → P u v

  set-OnEdges :
      (p : ℕ) (ns : List ℕ) (adjacency : Dict (List ℕ))
      → ((v : ℕ) → 0 < occ v ns → P p v)
      → OnEdges adjacency
      → OnEdges (set p ns adjacency)
  set-OnEdges p ns adjacency new old u v m = elim (Bool-cases (p == u)) [
    | inl e ↦
        subst (λ k. P k v) (same_key p u e) (new v (ground (arith, e, succs-set p u ns adjacency)))
    | inr e ↦ old u v (ground (arith, e, succs-set p u ns adjacency))
  ]

  append_new-has :
      (p name : ℕ) (ns : List ℕ)
      → P p name
      → ((v : ℕ) → 0 < occ v ns → P p v)
      → (v : ℕ) → 0 < occ v (append_new name ns)
      → P p v
  append_new-has p name ns new old v m = elim (Bool-cases (name == v)) [
    | inl e ↦ subst (λ k. P p k) (same_key name v e) new
    | inr e ↦ old v (ground (arith, e, occ-append v ns (name ∷ [])))
  ]

  link-OnEdges :
      (name : ℕ) (o : Option ℕ) (adjacency : Dict (List ℕ))
      → ((p : ℕ) → o ≡ some p → P p name)
      → OnEdges adjacency
      → OnEdges (link name o adjacency)
  link-OnEdges name none adjacency new old = old
  link-OnEdges name (some p) adjacency new old =
      set-OnEdges p (append_new name (succs adjacency p)) adjacency
        (append_new-has p name (succs adjacency p) (new p refl) (old p)) old

  link_inputs-OnEdges :
      (name : ℕ) (is : List ℕ) (d : Dict ℕ) (adjacency : Dict (List ℕ))
      → All (λ i. (p : ℕ) → get i d ≡ some p → P p name) is
      → OnEdges adjacency
      → OnEdges (link_inputs name is d adjacency)
  link_inputs-OnEdges name [] d adjacency new old = old
  link_inputs-OnEdges name (i ∷ is) d adjacency new old =
      link_inputs-OnEdges name is d (link name (get i d) adjacency) new.1
        (link-OnEdges name (get i d) adjacency new.0 old)

  module _ (generated : Text → ℕ → ℕ) where
    -- The producer of each input stands in the relation to the node that reads it.
    abbrev pub Feeds : ℕ → List NodeProto → Dict ℕ → Type 0
    Feeds i [] d = Unit
    Feeds i (node ∷ nodes) d =
        All (λ x. (p : ℕ) → get x d ≡ some p → P p (node_name generated i node)) node.input
        × Feeds (suc i) nodes d

    link_all-OnEdges :
        (i : ℕ) (nodes : List NodeProto) (d : Dict ℕ) (adjacency : Dict (List ℕ))
        → Feeds i nodes d
        → OnEdges adjacency
        → OnEdges (link_all generated i nodes d adjacency)
    link_all-OnEdges i [] d adjacency new old = old
    link_all-OnEdges i (node ∷ nodes) d adjacency new old =
        link_all-OnEdges (suc i) nodes d
          (link_inputs (node_name generated i node) node.input d adjacency) new.1
          (link_inputs-OnEdges (node_name generated i node) node.input d adjacency new.0 old)

    isolated-OnEdges :
        (i : ℕ) (nodes : List NodeProto) (adjacency : Dict (List ℕ))
        → OnEdges adjacency
        → OnEdges (isolated generated i nodes adjacency)
    isolated-OnEdges i [] adjacency h = h
    isolated-OnEdges i (node ∷ nodes) adjacency h =
        isolated-OnEdges (suc i) nodes (set (node_name generated i node) [] adjacency)
          (set-OnEdges (node_name generated i node) [] adjacency (λ v m. absurd (omega arith)) h)

    build_adjacency-OnEdges :
        (nodes : List NodeProto)
        → Feeds 0 nodes (producers generated 0 nodes [])
        → OnEdges (build_adjacency generated nodes)
    unfolding build_adjacency
    build_adjacency-OnEdges nodes feeds =
        link_all-OnEdges 0 nodes (producers generated 0 nodes []) (isolated generated 0 nodes [])
          feeds (isolated-OnEdges 0 nodes [] (λ u v m. absurd (omega arith)))

module _ (generated : Text → ℕ → ℕ) where
  link_all-IsDict :
      (i : ℕ) (nodes : List NodeProto) (d : Dict ℕ) (adjacency : Dict (List ℕ))
      → IsDict adjacency
      → IsDict (link_all generated i nodes d adjacency)
  link_all-IsDict i [] d adjacency h = h
  link_all-IsDict i (node ∷ nodes) d adjacency h =
      link_all-IsDict (suc i) nodes d
        (link_inputs (node_name generated i node) node.input d adjacency)
        (link_inputs-IsDict (node_name generated i node) node.input d adjacency h)

  isolated-IsDict :
      (i : ℕ) (nodes : List NodeProto) (adjacency : Dict (List ℕ))
      → IsDict adjacency
      → IsDict (isolated generated i nodes adjacency)
  isolated-IsDict i [] adjacency h = h
  isolated-IsDict i (node ∷ nodes) adjacency h =
      isolated-IsDict (suc i) nodes (set (node_name generated i node) [] adjacency)
        (set-IsDict (node_name generated i node) [] adjacency h)

  build_adjacency-IsDict : (nodes : List NodeProto) → IsDict (build_adjacency generated nodes)
  unfolding build_adjacency
  build_adjacency-IsDict nodes =
      link_all-IsDict 0 nodes (producers generated 0 nodes []) (isolated generated 0 nodes [])
        (isolated-IsDict 0 nodes [] (λ v. omega arith))

  -- A producer is a node.
  abbrev Producing : List ℕ → Dict ℕ → Type 0
  Producing names d = (x p : ℕ) → get x d ≡ some p → 0 < occ p names

  produce-Producing :
      (names : List ℕ) (name : ℕ) (outs : List ℕ) (d : Dict ℕ)
      → 0 < occ name names
      → Producing names d
      → Producing names (produce name outs d)
  produce-Producing names name [] d m h = h
  produce-Producing names name (out ∷ outs) d m h =
      produce-Producing names name outs (if out == 0 then d else set out name d) m (
        if-keeps (Producing names) (out == 0) d (set out name d) h (λ x p e.
          elim (Bool-cases (out == x)) [
            | inl k ↦ ground (arith, k, m, e, get-set out x name d)
            | inr k ↦ h x p (ground (arith, k, e, get-set out x name d))
          ]))

  producers-Producing :
      (names : List ℕ) (i : ℕ) (nodes : List NodeProto) (d : Dict ℕ)
      → ((v : ℕ) → 0 < occ v (names_of generated i nodes) → 0 < occ v names)
      → Producing names d
      → Producing names (producers generated i nodes d)
  producers-Producing names i [] d sub h = h
  producers-Producing names i (node ∷ nodes) d sub h =
      producers-Producing names (suc i) nodes (produce (node_name generated i node) node.output d)
        (λ v m. sub v (ground arith))
        (produce-Producing names (node_name generated i node) node.output d
          (sub (node_name generated i node) (ground (arith, same_id (node_name generated i node))))
          h)

  producers_known :
      (P : ℕ → ℕ → Type 0) (d : Dict ℕ)
      → ((x p v : ℕ) → get x d ≡ some p → P p v)
      → (i : ℕ) (nodes : List NodeProto) → Feeds P generated i nodes d
  producers_known P d h i [] = tt
  producers_known P d h i (node ∷ nodes) =
      (all_inputs node.input, producers_known P d h (suc i) nodes)
    where
      all_inputs :
          (is : List ℕ)
          → All (λ x. (p : ℕ) → get x d ≡ some p → P p (node_name generated i node)) is
      all_inputs [] = tt
      all_inputs (x ∷ is) = (λ p e. h x p (node_name generated i node) e, all_inputs is)

  build_adjacency-IsOrder :
      (nodes : List NodeProto)
      → IsOrder
          (names_of generated 0 nodes)
          (build_adjacency generated nodes)
          (topological_sort (names_of generated 0 nodes) (build_adjacency generated nodes))
  build_adjacency-IsOrder nodes =
      topological_sort-IsOrder (names_of generated 0 nodes) (build_adjacency generated nodes)
        (build_adjacency-IsDict nodes)
        (build_adjacency-OnEdges (λ u v. 0 < occ u (names_of generated 0 nodes)) generated nodes
          (producers_known (λ u v. 0 < occ u (names_of generated 0 nodes))
            (producers generated 0 nodes [])
            (λ x p v.
              producers-Producing (names_of generated 0 nodes) 0 nodes [] (λ w m. m) (λ y q e. cc) x
                p)
            0 nodes))

-- For every list of nodes and every naming of unnamed nodes, also one that names two nodes alike:
-- in the order that the analyzer gives, each name stands behind every name with an edge to it, no
-- name stands twice, and each is the name of a node.
pub topological_sort_orders :
    (generated : Text → ℕ → ℕ) (nodes : List NodeProto)
    → let names = names_of generated 0 nodes in
      let adjacency = build_adjacency generated nodes in
      let out = topological_sort names adjacency in
      Precedes names adjacency [] out
      × ((v : ℕ) → occ v out ≤ 1)
      × ((v : ℕ) → 0 < occ v out → 0 < occ v names)
topological_sort_orders generated nodes =
    let o = build_adjacency-IsOrder generated nodes in (o.before, o.once, o.named)

-- If no node depends on itself, which a rank shows that rises from the producer of each input to
-- the node that reads it, then the loop of the sort gets through: every name of a node stands in
-- the order exactly once.
pub topological_sort_complete :
    (generated : Text → ℕ → ℕ) (nodes : List NodeProto) (rank : ℕ → ℕ)
    → Feeds (λ u v. rank u < rank v) generated 0 nodes (producers generated 0 nodes [])
    → (v : ℕ) → 0 < occ v (names_of generated 0 nodes)
    → occ v (topological_sort (names_of generated 0 nodes) (build_adjacency generated nodes)) ≡ 1
topological_sort_complete generated nodes rank feeds v named =
    (build_adjacency-IsOrder generated nodes).whole rank
      (build_adjacency-OnEdges (λ u v. rank u < rank v) generated nodes feeds) v named
