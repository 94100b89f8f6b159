-- ===== src/Graph/Degrees.antt =====
-- What the dictionary of degrees holds, and what the queue holds with it.
use astra_back.Prelude.{
  ℕ, suc, ◌+◌, ◌-◌, ◌≡◌, refl, ap, arith, true, Option, none, some, List, [], ◌∷◌, ◌==◌, Dict, get,
  set, occ, get-set, Bool-cases, inl, inr, if◌then◌else◌,
}
use astra_back.Graph.Order.{zeroed, bumped, bump_all, count_edges, Front, lowered, relax}

abbrev pub plus : ℕ → Option ℕ → Option ℕ
plus n none = none
plus n (some k) = some (k + n)

abbrev pub minus : ℕ → Option ℕ → Option ℕ
minus n none = none
minus n (some k) = some (k - n)

-- The edges into `v` from nodes that are not done.
abbrev pub open_edges : Dict (List ℕ) → List ℕ → ℕ → ℕ
open_edges [] done v = 0
open_edges ((u, ns) ∷ adjacency) done v =
    let rest = open_edges adjacency done v in if occ u done == 0 then occ v ns + rest else rest

pub get-zeroed :
    (v : ℕ) (names : List ℕ) (d : Dict ℕ)
    → get v (zeroed names d) ≡ (if occ v names == 0 then get v d else some 0)
get-zeroed v [] d = refl
get-zeroed v (n ∷ ns) d = ground (arith, get-zeroed v ns (set n 0 d), get-set n v 0 d)

plus-zero : (o : Option ℕ) → o ≡ plus 0 o
plus-zero none = refl
plus-zero (some k) = ap some (omega arith)

minus-zero : (o : Option ℕ) → o ≡ minus 0 o
minus-zero none = refl
minus-zero (some k) = ap some (omega arith)

pub same_key : (n v : ℕ) → (n == v) ≡ true → n ≡ v
same_key n v h = ground arith

get-bumped-at :
    (v n : ℕ) (d : Dict ℕ) (o : Option ℕ)
    → get n d ≡ o
    → get v (bumped n o d) ≡ plus (if n == v then 1 else 0) (get v d)
get-bumped-at v n d none e = elim (Bool-cases (n == v)) [
  | inl h ↦ ground (arith, e, h, ap (λ k. get k d) (same_key n v h))
  | inr h ↦ ground (arith, h, plus-zero (get v d))
]
get-bumped-at v n d (some k) e = elim (Bool-cases (n == v)) [
  | inl h ↦ ground (arith, e, h, ap (λ k. get k d) (same_key n v h), get-set n v (suc k) d)
  | inr h ↦ ground (arith, h, plus-zero (get v d), get-set n v (suc k) d)
]

get-bumped :
    (v n : ℕ) (d : Dict ℕ) → get v (bumped n (get n d) d) ≡ plus (if n == v then 1 else 0) (get v d)
get-bumped v n d = get-bumped-at v n d (get n d) refl

get-lowered-at :
    (v n : ℕ) (f : Front) (o : Option ℕ)
    → get n f.in_degree ≡ o
    → get v (lowered n o f).in_degree ≡ minus (if n == v then 1 else 0) (get v f.in_degree)
get-lowered-at v n f none e = elim (Bool-cases (n == v)) [
  | inl h ↦ ground (arith, e, h, ap (λ k. get k f.in_degree) (same_key n v h))
  | inr h ↦ ground (arith, h, minus-zero (get v f.in_degree))
]
get-lowered-at v n f (some k) e = elim (Bool-cases (n == v)) [
  | inl h ↦
      ground
        (arith, e, h, ap (λ k. get k f.in_degree) (same_key n v h), get-set n v (k - 1) f.in_degree)
  | inr h ↦ ground (arith, h, minus-zero (get v f.in_degree), get-set n v (k - 1) f.in_degree)
]

get-bump_all :
    (v : ℕ) (ns : List ℕ) (d : Dict ℕ) → get v (bump_all ns d) ≡ plus (occ v ns) (get v d)
get-bump_all v [] d = plus-zero (get v d)
get-bump_all v (n ∷ ns) d =
    ground (arith, get-bump_all v ns (bumped n (get n d) d), get-bumped v n d)

pub get-count_edges :
    (v : ℕ) (adjacency : Dict (List ℕ)) (d : Dict ℕ)
    → get v (count_edges adjacency d) ≡ plus (open_edges adjacency [] v) (get v d)
get-count_edges v [] d = plus-zero (get v d)
get-count_edges v ((u, ns) ∷ adjacency) d =
    ground (arith, get-count_edges v adjacency (bump_all ns d), get-bump_all v ns d)

get-lowered :
    (v n : ℕ) (f : Front)
    → get v (lowered n (get n f.in_degree) f).in_degree
      ≡ minus (if n == v then 1 else 0) (get v f.in_degree)
get-lowered v n f = get-lowered-at v n f (get n f.in_degree) refl

pub get-relax :
    (v : ℕ) (ns : List ℕ) (f : Front)
    → get v (relax ns f).in_degree ≡ minus (occ v ns) (get v f.in_degree)
unfolding relax
get-relax v [] f = minus-zero (get v f.in_degree)
get-relax v (n ∷ ns) f =
    ground (arith, get-relax v ns (lowered n (get n f.in_degree) f), get-lowered v n f)
