-- ===== src/Search/Optimal.antt =====
-- The Pareto front is sound and complete, and a second pass changes nothing.
use astra_back.Prelude.{
  ℕ, zero, suc, ◌+◌, ◌-◌, ◌≤◌, ◌<◌, ◌≡◌, max, inl, inr, true, false, not, List, [], ◌∷◌, any, In,
  In-keep_if, keep_if-In, In-any, any-In, keep_if_all, arith, Bool-cases,
}
use astra_back.Search.Front.{ParetoPoint, dominates, compute_pareto_front}

-- `q` is at least as accurate as `p`, and at most as large.
pub record Covers (q p : ParetoPoint) : Type 0 where
  pub as_accurate : p.accuracy ≤ q.accuracy
  pub as_small : q.model_size_bytes ≤ p.model_size_bytes

-- No point of the front is dominated by a given point.
kept-undominated :
    (points : List ParetoPoint) (p q : ParetoPoint)
    → In p (compute_pareto_front points)
    → In q points
    → In p points × (dominates q p ≡ false)
unfolding compute_pareto_front
kept-undominated points p q m k =
    let (at, kept) = In-keep_if (λ r. not (any (λ s. dominates s r) points)) p points m in
    (at, ground (arith, any-In (λ s. dominates s p) q points k))

-- Every point of the front is one of the given points, and a given point that is at least as accurate
-- and at most as large has just its accuracy and just its size.
pub front_sound :
    (points : List ParetoPoint) (p q : ParetoPoint)
    → In p (compute_pareto_front points)
    → In q points
    → Covers q p
    → In p points × (q.accuracy ≡ p.accuracy) × (q.model_size_bytes ≡ p.model_size_bytes)
front_sound points p q m k c =
    let (at, free) = kept-undominated points p q m k in
    (at, ground (arith, c.as_accurate, c.as_small), ground (arith, c.as_accurate, c.as_small))

top : List ParetoPoint → ℕ
top [] = 0
top (p ∷ ps) = max p.accuracy (top ps)

le-top : (p : ParetoPoint) (ps : List ParetoPoint) → In p ps → p.accuracy ≤ top ps
unfolding top
le-top p [] m = absurd m
le-top p (q ∷ ps) m = ground (arith, le-top p ps)

-- A dominating point has more accuracy or less size, so that this search for one ends.
covered_within :
    (fuel : ℕ) (points : List ParetoPoint) (p : ParetoPoint)
    → top points - p.accuracy + p.model_size_bytes < fuel
    → In p points
    → (q : ParetoPoint) × In q (compute_pareto_front points) × Covers q p
unfolding compute_pareto_front
covered_within zero points p h m = absurd (omega arith)
covered_within (suc fuel) points p h m = elim (Bool-cases (any (λ q. dominates q p) points)) [
  | inr e ↦
      (p, keep_if-In (λ r. not (any (λ s. dominates s r) points)) p points m (rw e), omega arith)
  | inl e ↦
      let (q, k, d) = In-any (λ q. dominates q p) points e in
      let (r, l, c) = covered_within fuel points q (ground (arith, le-top q points k)) k in
      (r, l, ground (arith, c.as_accurate, c.as_small))
]

-- For every given point some point of the front is at least as accurate and at most as large.
pub front_complete :
    (points : List ParetoPoint) (p : ParetoPoint)
    → In p points
    → (q : ParetoPoint) × In q (compute_pareto_front points) × Covers q p
front_complete points p m =
    covered_within (suc (top points - p.accuracy + p.model_size_bytes)) points p (omega arith) m

front-In :
    (points : List ParetoPoint) (p : ParetoPoint) → In p (compute_pareto_front points) → In p points
unfolding compute_pareto_front
front-In points p m = (In-keep_if (λ r. not (any (λ s. dominates s r) points)) p points m).0

undominated :
    (points : List ParetoPoint) (p : ParetoPoint)
    → In p (compute_pareto_front points)
    → not (any (λ q. dominates q p) (compute_pareto_front points)) ≡ true
undominated points p m =
    elim (Bool-cases (any (λ q. dominates q p) (compute_pareto_front points))) [
      | inr e ↦ rw e
      | inl e ↦
          let (q, k, d) = In-any (λ q. dominates q p) (compute_pareto_front points) e in
          cc (d, (kept-undominated points p q m (front-In points q k)).1)
    ]

-- The front of the front is the front.
pub front_idempotent :
    (points : List ParetoPoint)
    → compute_pareto_front (compute_pareto_front points) ≡ compute_pareto_front points
front_idempotent points =
    unfold compute_pareto_front in
    keep_if_all (λ p. not (any (λ q. dominates q p) (compute_pareto_front points)))
      (compute_pareto_front points) (undominated points)
