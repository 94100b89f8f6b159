-- ===== src/Graph/Queue.antt =====
-- A name stands in the queue or in the result exactly if its degree is 0, and only once.
use astra_back.Prelude.{
  ℕ, suc, ◌+◌, ◌-◌, ◌≤◌, ◌≡◌, refl, ap, arith, Option, none, some, List, [], ◌∷◌, ◌==◌, Dict, get,
  set, keys, occ, occ-append, get-set, occ-keys-set, Bool-cases, inl, inr, if◌then◌else◌,
}
use astra_back.Graph.Order.{
  zeroed, bumped, bump_all, count_edges, sources, Front, lowered, relax, start_degrees, start_front,
}
use astra_back.Graph.Degrees.{same_key}

abbrev pub zero_flag : Option ℕ → ℕ
zero_flag none = 0
zero_flag (some k) = if k == 0 then 1 else 0

abbrev pub IsQueued : Front → List ℕ → Type 0
IsQueued f done = (v : ℕ) → occ v f.queue + occ v done ≡ zero_flag (get v f.in_degree)

lowered-IsQueued-at :
    (n : ℕ) (f : Front) (done : List ℕ) (o : Option ℕ)
    → get n f.in_degree ≡ o
    → IsQueued f done
    → IsQueued (lowered n o f) done
lowered-IsQueued-at n f done none e q v = q v
lowered-IsQueued-at n f done (some k) e q v = elim (Bool-cases (n == v)) [
  | inl h ↦ ground (
    arith,
    e,
    h,
    q v,
    ap (λ k. get k f.in_degree) (same_key n v h),
    get-set n v (k - 1) f.in_degree,
    occ-append v f.queue (n ∷ []),
  )
  | inr h ↦
      ground (arith, e, h, q v, get-set n v (k - 1) f.in_degree, occ-append v f.queue (n ∷ []))
]

pub relax-IsQueued :
    (ns : List ℕ) (f : Front) (done : List ℕ) → IsQueued f done → IsQueued (relax ns f) done
unfolding relax
relax-IsQueued [] f done q = q
relax-IsQueued (n ∷ ns) f done q =
    relax-IsQueued ns (lowered n (get n f.in_degree) f) done
      (lowered-IsQueued-at n f done (get n f.in_degree) refl q)

-- Each key of a dictionary stands there once.
abbrev pub IsDict : {A : Type 0} → Dict A → Type 0
IsDict d = (v : ℕ) → occ v (keys d) ≤ 1

pub no_key : {A : Type 0} (v : ℕ) (d : Dict A) → occ v (keys d) ≡ 0 → get v d ≡ none
no_key v [] h = refl
no_key v ((i, a) ∷ d) h = ground (arith, no_key v d)

pub IsDict-rest : {A : Type 0} (i : ℕ) (a : A) (d : Dict A) → IsDict ((i, a) ∷ d) → IsDict d
IsDict-rest i a d h v = ground (arith, h v)

sources-flag : (d : Dict ℕ) → IsDict d → (v : ℕ) → occ v (sources d) ≡ zero_flag (get v d)
sources-flag [] h v = refl
sources-flag ((i, k) ∷ d) h v = elim (Bool-cases (i == v)) [
  | inl e ↦ ground (arith, e, h v, sources-flag d (IsDict-rest i k d h) v, no_key v d)
  | inr e ↦ ground (arith, e, sources-flag d (IsDict-rest i k d h) v)
]

pub set-IsDict : {A : Type 0} (k : ℕ) (a : A) (d : Dict A) → IsDict d → IsDict (set k a d)
set-IsDict k a d h v = ground (arith, occ-keys-set k v a d, h v)

bumped-IsDict : (n : ℕ) (o : Option ℕ) (d : Dict ℕ) → IsDict d → IsDict (bumped n o d)
bumped-IsDict n none d h = h
bumped-IsDict n (some k) d h = set-IsDict n (suc k) d h

bump_all-IsDict : (ns : List ℕ) (d : Dict ℕ) → IsDict d → IsDict (bump_all ns d)
bump_all-IsDict [] d h = h
bump_all-IsDict (n ∷ ns) d h =
    bump_all-IsDict ns (bumped n (get n d) d) (bumped-IsDict n (get n d) d h)

count_edges-IsDict :
    (adjacency : Dict (List ℕ)) (d : Dict ℕ) → IsDict d → IsDict (count_edges adjacency d)
count_edges-IsDict [] d h = h
count_edges-IsDict ((u, ns) ∷ adjacency) d h =
    count_edges-IsDict adjacency (bump_all ns d) (bump_all-IsDict ns d h)

zeroed-IsDict : (names : List ℕ) (d : Dict ℕ) → IsDict d → IsDict (zeroed names d)
zeroed-IsDict [] d h = h
zeroed-IsDict (n ∷ ns) d h = zeroed-IsDict ns (set n 0 d) (set-IsDict n 0 d h)

pub start-IsQueued :
    (names : List ℕ) (adjacency : Dict (List ℕ)) → IsQueued (start_front names adjacency) []
start-IsQueued names adjacency v = omega (
  arith,
  sources-flag (start_degrees names adjacency)
      (count_edges-IsDict adjacency (zeroed names []) (zeroed-IsDict names [] (λ w. omega arith)))
      v,
)
