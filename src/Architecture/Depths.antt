-- ===== src/Architecture/Depths.antt =====
-- The depth of a node in app/services/mappers/layout.py is the length of the longest way to it.
use mathlib.Core.Path.{subst}
use astra_back.Prelude.{
  leb, sym, ℕ, suc, ◌≤◌, ◌<◌, ◌≡◌, ◌⊎◌, inl, inr, refl, max, none, some, List, [], ◌∷◌, ◌++◌, ◌==◌,
  occ, occ-append, arith, Bool-cases, Dict, get, set, get-set,
}
use astra_back.Architecture.{preds_of, max_known, depth_of, depths}

module _ (preds : ℕ → List ℕ) where
  -- Every name comes once, after its predecessors; those in `done` came before.
  abbrev pub IsSorted : List ℕ → List ℕ → Type 0
  IsSorted done [] = Unit
  IsSorted done (n ∷ ns) =
      (occ n done ≡ 0) × ((p : ℕ) → 0 < occ p (preds n) → 0 < occ p done) × IsSorted (n ∷ done) ns

  -- The depth is more than that of each predecessor and 1 more than that of some; without one it is 0.
  pub record IsLongest (d : Dict ℕ) (n : ℕ) : Type 0 where
    pub depth : ℕ
    pub known : get n d ≡ some depth
    pub below : (p : ℕ) → 0 < occ p (preds n) → (k : ℕ) × (get p d ≡ some k) × (k < depth)
    pub reached :
        ((depth ≡ 0) × (preds n ≡ []))
        ⊎ ((p : ℕ) × (k : ℕ) × (0 < occ p (preds n)) × (get p d ≡ some k) × (depth ≡ suc k))

-- The largest of known depths.
pub record IsLargest (ps : List ℕ) (d : Dict ℕ) : Type 0 where
  pub top : ℕ
  pub found : max_known ps d ≡ some top
  pub above : (p : ℕ) → 0 < occ p ps → (k : ℕ) × (get p d ≡ some k) × (k ≤ top)
  pub taken : (p : ℕ) × (0 < occ p ps) × (get p d ≡ some top)

one-IsLargest : (p : ℕ) (d : Dict ℕ) (k : ℕ) → get p d ≡ some k → IsLargest (p ∷ []) d
one-IsLargest p d k h = record {
  top = k;
  found = rw (h) refl;
  above =
      λ q m. let e : p ≡ q = ground arith in (k, subst (λ r. get r d ≡ some k) e h, omega arith);
  taken = (p, ground arith, h);
}

cons-IsLargest :
    (p : ℕ) (ps : List ℕ) (d : Dict ℕ) (k : ℕ)
    → get p d ≡ some k
    → IsLargest ps d
    → IsLargest (p ∷ ps) d
cons-IsLargest p ps d k h m = record {
  top = max k m.top;
  found = rw (h, m.found) refl;
  above = λ q o. elim (Bool-cases (p == q)) [
    | inl t ↦ let e : p ≡ q = ground arith in (k, subst (λ r. get r d ≡ some k) e h, omega arith)
    | inr f ↦ let (j, g, l) = m.above q (ground arith) in (j, g, omega arith)
  ];
  taken = elim (Bool-cases (leb k m.top)) [
    | inl t ↦
        let (q, o, g) = m.taken in
        let e : m.top ≡ max k m.top = ground arith in
        (q, ground arith, subst (λ j. get q d ≡ some j) e g)
    | inr f ↦
        let e : k ≡ max k m.top = ground arith in
        (p, ground arith, subst (λ j. get p d ≡ some j) e h)
  ];
}

max_known-IsLargest :
    (p : ℕ) (ps : List ℕ) (d : Dict ℕ)
    → ((q : ℕ) → 0 < occ q (p ∷ ps) → (k : ℕ) × (get q d ≡ some k))
    → IsLargest (p ∷ ps) d
max_known-IsLargest p [] d known = let (k, h) = known p (ground arith) in one-IsLargest p d k h
max_known-IsLargest p (q ∷ ps) d known =
    let (k, h) = known p (ground arith) in
    cons-IsLargest p (q ∷ ps) d k h (max_known-IsLargest q ps d (λ r m. known r (ground arith)))

module _ (preds : ℕ → List ℕ) where
  -- What the loop has done: the names in `done` have their depth, and no other name has one.
  record IsDone (done : List ℕ) (d : Dict ℕ) : Type 0 where
    longest : (n : ℕ) → 0 < occ n done → IsLongest preds d n
    unknown : (n : ℕ) → occ n done ≡ 0 → get n d ≡ none

  -- A new depth leaves what is known.
  get-kept :
      (n k p j : ℕ) (d : Dict ℕ) → get n d ≡ none → get p d ≡ some j → get p (set n k d) ≡ some j
  get-kept n k p j d u h = elim (Bool-cases (n == p)) [
    | inl t ↦
        let e : n ≡ p = ground arith in
        let v : get p d ≡ none = subst (λ q. get q d ≡ none) e u in absurd (cc)
    | inr f ↦ ground (arith, get-set n p k d)
  ]

  IsLongest-kept :
      (n k m : ℕ) (d : Dict ℕ)
      → get n d ≡ none
      → IsLongest preds d m
      → IsLongest preds (set n k d) m
  IsLongest-kept n k m d u l = record {
    depth = l.depth;
    known = get-kept n k m l.depth d u l.known;
    below = λ p o. let (j, g, b) = l.below p o in (j, get-kept n k p j d u g, b);
    reached = elim l.reached [
      | inl e ↦ inl e
      | inr (p, j, o, g, e) ↦ inr (p, j, o, get-kept n k p j d u g, e)
    ];
  }

  -- The depth of a name whose predecessors are known.
  new-IsLongest :
      (n : ℕ) (ps : List ℕ) (d : Dict ℕ)
      → preds n ≡ ps
      → get n d ≡ none
      → ((p : ℕ) → 0 < occ p ps → (k : ℕ) × (get p d ≡ some k))
      → (k : ℕ) × (depth_of ps d ≡ some k) × IsLongest preds (set n k d) n
  new-IsLongest n [] d e u known = (
    0,
    refl,
    record {
      depth = 0;
      known = ground (arith, get-set n n 0 d);
      below = λ p o. let z : 0 < occ p [] = subst (λ ps. 0 < occ p ps) e o in absurd (omega arith);
      reached = inl (refl, e);
    },
  )
  new-IsLongest n (q ∷ qs) d e u known =
      let m = max_known-IsLargest q qs d known in
      (
        suc m.top,
        rw (m.found) refl,
        record {
          depth = suc m.top;
          known = ground (arith, get-set n n (suc m.top) d);
          below = λ p o.
              let (j, g, b) = m.above p (subst (λ ps. 0 < occ p ps) e o) in
              (j, get-kept n (suc m.top) p j d u g, omega arith);
          reached =
              let (p, o, g) = m.taken in
              inr (
                p,
                m.top,
                subst (λ ps. 0 < occ p ps) (sym e) o,
                get-kept n (suc m.top) p m.top d u g,
                refl,
              );
        },
      )

  next-IsDone :
      (n k : ℕ) (done : List ℕ) (d : Dict ℕ)
      → IsDone done d
      → occ n done ≡ 0
      → IsLongest preds (set n k d) n
      → IsDone (n ∷ done) (set n k d)
  next-IsDone n k done d i f l = record {
    longest = λ m o. elim (Bool-cases (n == m)) [
      | inl t ↦ let e : n ≡ m = ground arith in subst (λ x. IsLongest preds (set n k d) x) e l
      | inr t ↦ IsLongest-kept n k m d (i.unknown n f) (i.longest m (ground arith))
    ];
    unknown = λ m z. ground (arith, get-set n m k d, i.unknown m);
  }

  depths-from :
      (ns done : List ℕ) (d : Dict ℕ)
      → IsSorted preds done ns
      → IsDone done d
      → (e : Dict ℕ) × (depths preds ns d ≡ some e)
        × ((n : ℕ) → 0 < occ n (done ++ ns) → IsLongest preds e n)
  unfolding depths
  depths-from [] done d s i = (d, refl, λ n o. i.longest n (ground (arith, occ-append n done [])))
  depths-from (n ∷ ns) done d (fresh, before, s) i =
      let (k, h, l) =
        new-IsLongest n (preds n) d refl (i.unknown n fresh)
          (λ p o. let m = i.longest p (before p o) in (m.depth, m.known)) in
      let (e, g, all) =
        depths-from ns (n ∷ done) (set n k d) s (next-IsDone n k done d i fresh l) in
      (
        e,
        rw (h, depths) g,
        λ m o. all m (ground (arith, occ-append m done (n ∷ ns), occ-append m (n ∷ done) ns)),
      )

-- For distinct names in an order in which the predecessors of each come before it, the depths of a
-- layout are found, and the depth of a name is more than that of each of its predecessors, 1 more
-- than that of some, and 0 where there is none: the longest way to the name.
pub depths-IsLongest :
    (names : List ℕ) (edges : List (ℕ × ℕ))
    → IsSorted (preds_of names edges) [] names
    → (d : Dict ℕ) × (depths (preds_of names edges) names [] ≡ some d)
      × ((n : ℕ) → 0 < occ n names → IsLongest (preds_of names edges) d n)
depths-IsLongest names edges s =
    depths-from (preds_of names edges) names [] [] s
      (record { longest = λ n o. absurd (omega arith); unknown = λ n z. refl })
