-- ===== src/Search/Front.antt =====
-- The Pareto front over accuracy (to be raised) and size (to be lowered).
use astra_back.Prelude.{
  ℕ, Bool, not, ◌&&◌, ◌||◌, Option, none, some, List, [], ◌∷◌, ltb, leb, ◌==◌, keep_if, find_if,
  any, if◌then◌else◌,
}

-- The fields of `ParetoPoint` that the search reads. An accuracy is only compared, so that it is a
-- number of some unit; so is a latency.
pub record ParetoPoint : Type 0 where
  pub trial_number : ℕ
  pub accuracy : ℕ
  pub model_size_bytes : ℕ
  pub latency_ms : ℕ

-- The test of the inner loop: as good in both, and better in one.
abbrev pub dominates : ParetoPoint → ParetoPoint → Bool
dominates q p =
    leb p.accuracy q.accuracy
    && leb q.model_size_bytes p.model_size_bytes
    && (ltb p.accuracy q.accuracy || ltb q.model_size_bytes p.model_size_bytes)

-- `_compute_pareto_front`: the inner loop with its `break` is `any`.
unfoldable pub compute_pareto_front : List ParetoPoint → List ParetoPoint
compute_pareto_front points = keep_if (λ p. not (any (λ q. dominates q p) points)) points

-- The end of `search`: the points of Optuna's best trials, given by their numbers.
abbrev append_found : Option ParetoPoint → List ParetoPoint → List ParetoPoint
append_found none rest = rest
append_found (some p) rest = p ∷ rest

unfoldable pub points_of : List ℕ → List ParetoPoint → List ParetoPoint
points_of [] all_trials = []
points_of (n ∷ ns) all_trials =
    append_found (find_if (λ p. p.trial_number == n) all_trials) (points_of ns all_trials)

abbrev or_front : List ParetoPoint → List ParetoPoint → List ParetoPoint
or_front [] all_trials = compute_pareto_front all_trials
or_front (p ∷ ps) all_trials = p ∷ ps

unfoldable pub pareto_points : List ℕ → List ParetoPoint → List ParetoPoint
unfolding points_of compute_pareto_front
pareto_points best_trials all_trials = or_front (points_of best_trials all_trials) all_trials

-- Python's `max` and `min` with a key keep the first of equals.
abbrev pub best_by :
    (ParetoPoint → ParetoPoint → Bool) → ParetoPoint → List ParetoPoint → ParetoPoint
best_by better p [] = p
best_by better p (q ∷ qs) = best_by better (if better q p then q else p) qs

abbrev pub best_or_none : (ParetoPoint → ParetoPoint → Bool) → List ParetoPoint → Option ParetoPoint
best_or_none better [] = none
best_or_none better (p ∷ ps) = some (best_by better p ps)

unfoldable pub best_accuracy : List ParetoPoint → Option ParetoPoint
best_accuracy = best_or_none (λ q p. ltb p.accuracy q.accuracy)

unfoldable pub best_size : List ParetoPoint → Option ParetoPoint
best_size = best_or_none (λ q p. ltb q.model_size_bytes p.model_size_bytes)

unfoldable pub best_latency : List ParetoPoint → Option ParetoPoint
best_latency = best_or_none (λ q p. ltb q.latency_ms p.latency_ms)
