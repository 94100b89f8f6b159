-- ===== src/Graph/Sorted.antt =====
-- The order that the sort gives: predecessors first, nothing twice, and everything if there is no cycle.
use astra_back.Prelude.{
  ℕ, zero, suc, ◌+◌, ◌≤◌, ◌<◌, ◌≡◌, refl, ap, arith, none, some, List, [], ◌∷◌, ◌++◌, ◌==◌, length,
  Dict, get, keys, occ, occ-append, same_id, Bool-cases, inl, inr, if◌then◌else◌,
}
use astra_back.Graph.Order.{succs, Front, relax, sort_loop, topological_sort, start_front, zeroed}
use astra_back.Graph.Degrees.{same_key, open_edges, get-relax, get-zeroed, get-count_edges}
use astra_back.Graph.Queue.{
  zero_flag, IsQueued, IsDict, no_key, IsDict-rest, relax-IsQueued, start-IsQueued,
}
use astra_back.Graph.Fuel.{sort_loop-rule, start-work}

module _ (v : ℕ) where
  open-same :
      (n : ℕ) (result : List ℕ) (adjacency : Dict (List ℕ))
      → occ n (keys adjacency) ≡ 0
      → open_edges adjacency (result ++ n ∷ []) v ≡ open_edges adjacency result v
  open-same n result [] h = refl
  open-same n result ((u, ns) ∷ adjacency) h =
      ground (arith, open-same n result adjacency, occ-append u result (n ∷ []))

  open-snoc :
      (n : ℕ) (result : List ℕ) (adjacency : Dict (List ℕ))
      → IsDict adjacency
      → occ n result ≡ 0
      → open_edges adjacency (result ++ n ∷ []) v + occ v (succs adjacency n)
        ≡ open_edges adjacency result v
  open-snoc n result [] d h = omega arith
  open-snoc n result ((u, ns) ∷ adjacency) d h = elim (Bool-cases (u == n)) [
    | inl e ↦ ground (
      arith,
      e,
      d n,
      open-same n result adjacency,
      occ-append u result (n ∷ []),
      ap (λ k. occ k result) (same_key u n e),
    )
    | inr e ↦ ground (
      arith,
      e,
      occ-append u result (n ∷ []),
      open-snoc n result adjacency (IsDict-rest u ns adjacency d) h,
    )
  ]

  open-zero :
      (u : ℕ) (done : List ℕ) (adjacency : Dict (List ℕ))
      → open_edges adjacency done v ≡ 0
      → 0 < occ v (succs adjacency u)
      → 0 < occ u done
  open-zero u done [] h m = absurd (omega arith)
  open-zero u done ((i, ns) ∷ adjacency) h m = elim (Bool-cases (i == u)) [
    | inl e ↦ ground (arith, e, ap (λ k. occ k done) (same_key i u e))
    | inr e ↦ ground (arith, e, open-zero u done adjacency)
  ]

  open-none :
      (done : List ℕ) (adjacency : Dict (List ℕ))
      → IsDict adjacency
      → ((u : ℕ) → 0 < occ v (succs adjacency u) → 0 < occ u done)
      → open_edges adjacency done v ≡ 0
  open-none done [] d h = refl
  open-none done ((i, ns) ∷ adjacency) d h =
      ground (arith, h i, same_id i, open-none done adjacency (IsDict-rest i ns adjacency d) below)
    where
      below : (u : ℕ) → 0 < occ v (succs adjacency u) → 0 < occ u done
      below u m = elim (Bool-cases (i == u)) [
        | inl e ↦ ground (arith, e, d u, no_key u adjacency)
        | inr e ↦ ground (arith, e, h u)
      ]

module _ (names : List ℕ) (adjacency : Dict (List ℕ)) where
  abbrev pub Edge : ℕ → ℕ → Type 0
  Edge u v = 0 < occ v (succs adjacency u)

  -- Where a name stands, its predecessors have gone before.
  abbrev pub Precedes : List ℕ → List ℕ → Type 0
  Precedes seen [] = Unit
  Precedes seen (v ∷ out) = ((u : ℕ) → Edge u v → 0 < occ u seen) × Precedes (v ∷ seen) out

  Precedes-snoc :
      (n : ℕ) (seen out : List ℕ)
      → Precedes seen out
      → ((u : ℕ) → Edge u n → 0 < occ u seen + occ u out)
      → Precedes seen (out ++ n ∷ [])
  Precedes-snoc n seen [] p h = (λ u e. omega (arith, h u e), tt)
  Precedes-snoc n seen (v ∷ out) p h =
      (p.0, Precedes-snoc n (v ∷ seen) out p.1 (λ u e. ground (arith, h u e)))

  record IsSorting (f : Front) (result : List ℕ) : Type 0 where
    queued : IsQueued f result
    degrees :
        (v : ℕ)
        → get v f.in_degree
          ≡ (if occ v names == 0 then none else some (open_edges adjacency result v))
    order : Precedes [] result

  start-IsSorting : IsSorting (start_front names adjacency) []
  start-IsSorting = record {
    queued = start-IsQueued names adjacency;
    degrees =
        λ v. ground (arith, get-count_edges v adjacency (zeroed names []), get-zeroed v names []);
    order = tt;
  }

  module _ (d : IsDict adjacency) where
    keeps :
        (f : Front) (n : ℕ) (rest : List ℕ) (result : List ℕ)
        → f.queue ≡ n ∷ rest
        → IsSorting f result
        → IsSorting
            (relax (succs adjacency n) (record { in_degree = f.in_degree; queue = rest }))
            (result ++ n ∷ [])
    keeps f n rest result e s =
        let f' : Front = record { in_degree = f.in_degree; queue = rest } in
        let head : (v : ℕ) → occ v f.queue ≡ occ v (n ∷ rest) = λ v. ap (occ v) e in
        let new : occ n result ≡ 0 = ground (arith, s.queued n, head n, s.degrees n, same_id n) in
        let done : open_edges adjacency result n ≡ 0 =
          ground (arith, s.queued n, head n, s.degrees n, same_id n) in
        record {
          queued =
              relax-IsQueued (succs adjacency n) f' (result ++ n ∷ [])
                (λ v. ground (arith, s.queued v, head v, occ-append v result (n ∷ [])));
          degrees = λ v. ground (
            arith,
            get-relax v (succs adjacency n) f',
            s.degrees v,
            open-snoc v n result adjacency d new,
          );
          order =
              Precedes-snoc n [] result s.order
                (λ u m. omega (arith, open-zero n u result adjacency done m));
        }

  -- What holds of the order, the sources of the edges being names.
  pub record IsOrder (out : List ℕ) : Type 0 where
    pub before : Precedes [] out
    pub once : (v : ℕ) → occ v out ≤ 1
    pub named : (v : ℕ) → 0 < occ v out → 0 < occ v names
    pub whole :
        (rank : ℕ → ℕ)
        → ((u v : ℕ) → Edge u v → rank u < rank v)
        → (v : ℕ) → 0 < occ v names
        → occ v out ≡ 1

  module _ (d : IsDict adjacency) (known : (u v : ℕ) → Edge u v → 0 < occ u names) (f : Front)
      (out : List ℕ) (s : IsSorting f out) (empty : f.queue ≡ []) where
    at_end : (v : ℕ) → occ v out ≡ zero_flag (get v f.in_degree)
    at_end v = omega (arith, s.queued v, ap (occ v) empty)

    -- A name whose predecessors are all in the order is in it.
    reached : (v : ℕ) → 0 < occ v names → ((u : ℕ) → Edge u v → 0 < occ u out) → occ v out ≡ 1
    reached v named h = ground (arith, at_end v, s.degrees v, open-none v out adjacency d h)

    all_reached :
        (rank : ℕ → ℕ)
        → ((u v : ℕ) → Edge u v → rank u < rank v)
        → (k v : ℕ) → rank v < k
        → 0 < occ v names
        → occ v out ≡ 1
    all_reached rank up zero v below named = absurd (omega arith)
    all_reached rank up (suc k) v below named =
        reached v named
          (λ u e. omega (arith, all_reached rank up k u (omega (arith, up u v e)) (known u v e)))

    end-IsOrder : IsOrder out
    end-IsOrder = record {
      before = s.order;
      once = λ v. ground (arith, at_end v);
      named = λ v m. ground (arith, at_end v, s.degrees v);
      whole = λ rank up v named. all_reached rank up (suc (rank v)) v (omega arith) named;
    }

  pub topological_sort-IsOrder :
      IsDict adjacency
      → ((u v : ℕ) → Edge u v → 0 < occ u names)
      → IsOrder (topological_sort names adjacency)
  unfolding topological_sort
  topological_sort-IsOrder d known =
      let (f, out) = sort_loop (length names) adjacency (start_front names adjacency) [] in
      let (s, empty) =
        sort_loop-rule IsSorting adjacency (keeps d) (length names) (start_front names adjacency) []
          (start-work names adjacency) start-IsSorting in
      end-IsOrder d known f out s empty
