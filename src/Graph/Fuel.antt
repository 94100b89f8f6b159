-- ===== src/Graph/Fuel.antt =====
-- The loop ends: a round takes a name off the queue, and each name that it adds uses up a degree.
use astra_back.Prelude.{
  ℕ, zero, suc, ◌+◌, ◌-◌, ◌≤◌, ◌≡◌, ◌⊎◌, refl, ap, ◌∙◌, arith, Option, none, some, List, [], ◌∷◌,
  ◌++◌, ◌==◌, length, length-append, Dict, get, set, Bool-cases, inl, inr, if◌then◌else◌,
}
use astra_back.Graph.Order.{
  succs, zeroed, bumped, bump_all, count_edges, sources, Front, lowered, relax, sort_loop,
  start_degrees, start_front,
}

abbrev positives : Dict ℕ → ℕ
positives [] = 0
positives ((i, k) ∷ d) = let rest = positives d in if k == 0 then rest else suc rest

abbrev positive : ℕ → ℕ
positive k = if k == 0 then 0 else 1

positives-set :
    (n k j : ℕ) (d : Dict ℕ)
    → get n d ≡ some k
    → positives (set n j d) + positive k ≡ positives d + positive j
positives-set n k j [] h = cc
positives-set n k j ((i, a) ∷ d) h = elim (Bool-cases (i == n)) [
  | inl e ↦
      let e' : ◌≡◌ {A = Option ℕ} (some a) (some k) = ground (arith, e, h) in ground (arith, e, e')
  | inr e ↦ ground (arith, e, positives-set n k j d)
]

abbrev pub work : Front → ℕ
work f = positives f.in_degree + length f.queue

lowered-work-at :
    (n : ℕ) (f : Front) (o : Option ℕ) → get n f.in_degree ≡ o → work (lowered n o f) ≤ work f
lowered-work-at n f none e = omega arith
lowered-work-at n f (some k) e =
    ground (arith, positives-set n k (k - 1) f.in_degree e, length-append f.queue (n ∷ []))

pub relax-work : (ns : List ℕ) (f : Front) → work (relax ns f) ≤ work f
unfolding relax
relax-work [] f = omega arith
relax-work (n ∷ ns) f = omega (
  arith,
  relax-work ns (lowered n (get n f.in_degree) f),
  lowered-work-at n f (get n f.in_degree) refl,
)

start-split : (d : Dict ℕ) → positives d + length (sources d) ≡ length d
start-split [] = omega arith
start-split ((i, k) ∷ d) = ground (arith, start-split d)

length-set-le : (n k : ℕ) (d : Dict ℕ) → length (set n k d) ≤ suc (length d)
length-set-le n k [] = omega arith
length-set-le n k ((i, a) ∷ d) = ground (arith, length-set-le n k d)

length-set-known : (n k j : ℕ) (d : Dict ℕ) → get n d ≡ some j → length (set n k d) ≡ length d
length-set-known n k j [] h = cc
length-set-known n k j ((i, a) ∷ d) h = ground (arith, length-set-known n k j d)

length-zeroed : (names : List ℕ) (d : Dict ℕ) → length (zeroed names d) ≤ length names + length d
length-zeroed [] d = omega arith
length-zeroed (n ∷ ns) d = omega (arith, length-zeroed ns (set n 0 d), length-set-le n 0 d)

length-bumped : (n : ℕ) (d : Dict ℕ) (o : Option ℕ) → get n d ≡ o → length (bumped n o d) ≡ length d
length-bumped n d none e = refl
length-bumped n d (some k) e = length-set-known n (suc k) k d e

length-bump_all : (ns : List ℕ) (d : Dict ℕ) → length (bump_all ns d) ≡ length d
length-bump_all [] d = refl
length-bump_all (n ∷ ns) d =
    length-bump_all ns (bumped n (get n d) d) ∙ length-bumped n d (get n d) refl

length-count_edges :
    (adjacency : Dict (List ℕ)) (d : Dict ℕ) → length (count_edges adjacency d) ≡ length d
length-count_edges [] d = refl
length-count_edges ((u, ns) ∷ adjacency) d =
    length-count_edges adjacency (bump_all ns d) ∙ length-bump_all ns d

pub start-work :
    (names : List ℕ) (adjacency : Dict (List ℕ)) → work (start_front names adjacency) ≤ length names
start-work names adjacency = omega (
  arith,
  start-split (start_degrees names adjacency),
  length-count_edges adjacency (zeroed names []),
  length-zeroed names [],
)

List-cases : {A : Type 0} (xs : List A) → (xs ≡ []) ⊎ ((x : A) × (r : List A) × (xs ≡ x ∷ r))
List-cases [] = inl refl
List-cases (x ∷ r) = inr (x, r, refl)

no_queue : {A : Type 0} (xs : List A) → length xs ≤ 0 → xs ≡ []
no_queue [] h = refl
no_queue (x ∷ xs) h = absurd (omega arith)

-- What one round keeps holds at the end, where the queue is empty.
pub sort_loop-rule :
    (P : Front → List ℕ → Type 0) (adjacency : Dict (List ℕ))
    → ((f : Front) (n : ℕ) (rest : List ℕ) (result : List ℕ)
        → f.queue ≡ n ∷ rest
        → P f result
        → P
            (relax (succs adjacency n) (record { in_degree = f.in_degree; queue = rest }))
            (result ++ n ∷ []))
    → (fuel : ℕ) (f : Front) (result : List ℕ) → work f ≤ fuel
    → P f result
    → let (f', result') = sort_loop fuel adjacency f result in P f' result' × (f'.queue ≡ [])
unfolding sort_loop
sort_loop-rule P adjacency keep zero f result enough p = (p, no_queue f.queue (omega arith))
sort_loop-rule P adjacency keep (suc fuel) f result enough p = elim (List-cases f.queue) [
  | inl e ↦ rw (e, sort_loop) (p, e)
  | inr (n, rest, e) ↦
      rw (e, sort_loop)
        (sort_loop-rule P adjacency keep fuel
          (relax (succs adjacency n) (record { in_degree = f.in_degree; queue = rest }))
          (result ++ n ∷ [])
          (omega (
            arith,
            ap length e,
            relax-work (succs adjacency n) (record { in_degree = f.in_degree; queue = rest }),
          ))
          (keep f n rest result e p))
]
