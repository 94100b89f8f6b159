-- ===== src/Architecture/Levels.antt =====
-- The levels of a layout in app/services/mappers/layout.py: which members they have, and what the loop
-- over a level places.
use mathlib.Core.Path.{subst}
use native.Mathlib.Nat.{zero-add}
use astra_back.Prelude.{
  ℕ, suc, ◌+◌, ◌≤◌, ◌<◌, ◌≡◌, ◌∙◌, refl, ap, some, List, [], ◌∷◌, ◌++◌, ◌==◌, length, All, false,
  occ, occ-append, arith, Bool-cases, inl, inr, if◌then◌else◌, if-by, Dict, get, set, keys, or_else,
  get-set, occ-keys-set,
}
use astra_back.Architecture.{
  NodePos, place_at, place_members, place_level, place_levels, insert_member, sort_members,
  levels_of, add_member,
}

-- The last place at which a member stands.
abbrev pub last_at : ℕ → List ℕ → ℕ
last_at n [] = 0
last_at n (x ∷ xs) = let rest = last_at n xs in if occ n xs == 0 then 0 else suc rest

pub last_at-lt : (n : ℕ) (ms : List ℕ) → 0 < occ n ms → last_at n ms < length ms
last_at-lt n [] h = absurd (omega arith)
last_at-lt n (x ∷ ms) h = ground (arith, last_at-lt n ms)

pub last_at-apart :
    (n m : ℕ) (ms : List ℕ) → 0 < occ n ms → 0 < occ m ms → last_at n ms ≡ last_at m ms → n ≡ m
last_at-apart n m [] h k e = absurd (omega arith)
last_at-apart n m (x ∷ ms) h k e = ground (arith, last_at-apart n m ms)

occ-insert_member :
    (key : ℕ → ℕ) (n x : ℕ) (ms : List ℕ) → occ n (insert_member key x ms) ≡ occ n (x ∷ ms)
occ-insert_member key n x [] = refl
occ-insert_member key n x (m ∷ ms) = ground (arith, occ-insert_member key n x ms)

pub occ-sort_members : (key : ℕ → ℕ) (n : ℕ) (ms : List ℕ) → occ n (sort_members key ms) ≡ occ n ms
occ-sort_members key n [] = refl
occ-sort_members key n (x ∷ ms) =
    ground (arith, occ-insert_member key n x (sort_members key ms), occ-sort_members key n ms)

length-insert_member :
    (key : ℕ → ℕ) (x : ℕ) (ms : List ℕ) → length (insert_member key x ms) ≡ suc (length ms)
length-insert_member key x [] = refl
length-insert_member key x (m ∷ ms) = ground (arith, length-insert_member key x ms)

pub length-sort_members : (key : ℕ → ℕ) (ms : List ℕ) → length (sort_members key ms) ≡ length ms
length-sort_members key [] = refl
length-sort_members key (x ∷ ms) =
    omega (arith, length-insert_member key x (sort_members key ms), length-sort_members key ms)

-- What the loop over the members of a level leaves at a name.
place_members-get :
    (depth k i : ℕ) (ms : List ℕ) (out : Dict NodePos) (n : ℕ)
    → get n (place_members depth k i ms out)
      ≡ (if occ n ms == 0 then get n out else some (place_at depth k (i + last_at n ms)))
place_members-get depth k i [] out n = refl
place_members-get depth k i (x ∷ ms) out n =
    let out' = set x (place_at depth k i) out in
    let here : i + 0 ≡ i = omega arith in
    let there : suc i + last_at n ms ≡ i + suc (last_at n ms) = omega arith in
    ground (
      arith,
      here,
      there,
      place_members-get depth k (suc i) ms out' n,
      get-set x n (place_at depth k i) out,
    )

module _ {A : Type 0} (P : ℕ × A → Type 0) where
  All-set : (k : ℕ) (a : A) (d : Dict A) → P (k, a) → All P d → All P (set k a d)
  All-set k a [] h ps = (h, tt)
  All-set k a ((i, b) ∷ d) h ps =
      if-by (All P) (i == k) ((i, a) ∷ d) ((i, b) ∷ set k a d)
        (λ e. let same : k ≡ i = ground arith in (subst (λ j. P (j, a)) same h, ps.1))
        (λ e. (ps.0, All-set k a d h ps.1))

module _ (f : ℕ → ℕ) where
  -- A level holds names of its own depth.
  abbrev pub IsLeveled : Dict (List ℕ) → Type 0
  IsLeveled levels = All (λ l. (n : ℕ) → 0 < occ n l.1 → f n ≡ l.0) levels

  abbrev pub IsOnce : Dict (List ℕ) → Type 0
  IsOnce levels = (v : ℕ) → occ v (keys levels) ≤ 1

  abbrev pub members_at : ℕ → Dict (List ℕ) → List ℕ
  members_at k levels = or_else [] (get k levels)

  IsLeveled-at :
      (n k : ℕ) (levels : Dict (List ℕ))
      → IsLeveled levels
      → 0 < occ n (members_at k levels)
      → f n ≡ k
  IsLeveled-at n k [] v h = absurd (omega arith)
  IsLeveled-at n k ((i, ms) ∷ levels) v h = ground (arith, v.0 n, IsLeveled-at n k levels v.1)

  add_member-IsLeveled :
      (n : ℕ) (levels : Dict (List ℕ)) → IsLeveled levels → IsLeveled (add_member (f n) n levels)
  add_member-IsLeveled n levels v =
      All-set (λ l. (m : ℕ) → 0 < occ m l.1 → f m ≡ l.0) (f n) (members_at (f n) levels ++ n ∷ [])
        levels
        (λ m h. elim (Bool-cases (n == m)) [
          | inl e ↦ let same : m ≡ n = ground arith in ap f same
          | inr e ↦
              let split = occ-append m (members_at (f n) levels) (n ∷ []) in
              IsLeveled-at m (f n) levels v (ground arith)
        ])
        v

  add_member-IsOnce :
      (n : ℕ) (levels : Dict (List ℕ)) → IsOnce levels → IsOnce (add_member (f n) n levels)
  add_member-IsOnce n levels u v =
      ground (arith, u v, occ-keys-set (f n) v (members_at (f n) levels ++ n ∷ []) levels)

  -- A name joins the level of its depth, and no other level changes.
  add_member-members :
      (m n : ℕ) (levels : Dict (List ℕ))
      → occ m (members_at (f m) (add_member (f n) n levels))
        ≡ occ m (n ∷ []) + occ m (members_at (f m) levels)
  add_member-members m n levels =
      let old = members_at (f n) levels in
      let found = get-set (f n) (f m) (old ++ n ∷ []) levels in
      elim (Bool-cases (f n == f m)) [
        | inl e ↦
            let same : f n ≡ f m = ground arith in
            let joined : get (f m) (set (f n) (old ++ n ∷ []) levels) ≡ some (old ++ n ∷ []) =
              found ∙ rw (e) refl in
            let there : occ m old ≡ occ m (members_at (f m) levels) =
              ap (λ k. occ m (members_at k levels)) same in
            ap (λ o. occ m (or_else [] o)) joined ∙ omega (arith, occ-append m old (n ∷ []), there)
        | inr e ↦
            let kept : get (f m) (set (f n) (old ++ n ∷ []) levels) ≡ get (f m) levels =
              found ∙ rw (e) refl in
            let differs : (n == m) ≡ false = elim (Bool-cases (n == m)) [
              | inr q ↦ q
              | inl q ↦
                  let same : n ≡ m = ground arith in
                  let depths_same = ap f same in absurd (ground arith)
            ] in
            ap (λ o. occ m (or_else [] o)) kept ∙ rw (differs) (omega arith)
      ]

  -- The rest of the levels has no name of a depth that it has no level for.
  absent :
      (n : ℕ) (levels : Dict (List ℕ))
      → IsLeveled levels
      → occ (f n) (keys levels) ≡ 0
      → All (λ l. occ n l.1 ≡ 0) levels
  absent n [] v h = tt
  absent n ((i, ms) ∷ levels) v h = (ground (arith, v.0 n), absent n levels v.1 (ground arith))

  module _ (key : ℕ → ℕ) where
    place_levels-absent :
        (n : ℕ) (levels : Dict (List ℕ)) (out : Dict NodePos)
        → All (λ l. occ n l.1 ≡ 0) levels
        → get n (place_levels key levels out) ≡ get n out
    place_levels-absent n [] out h = refl
    place_levels-absent n ((i, ms) ∷ levels) out h =
        place_levels-absent n levels (place_level key i ms out) h.1
        ∙ ground (
          arith,
          h.0,
          occ-sort_members key n ms,
          place_members-get i (length ms) 0 (sort_members key ms) out n,
        )

    -- A name of the first level is placed there, and the other levels leave it.
    placed_first :
        (n i : ℕ) (ms : List ℕ) (levels : Dict (List ℕ)) (out : Dict NodePos)
        → IsLeveled levels
        → occ (f n) (keys levels) ≡ 0
        → 0 < occ n ms
        → get n (place_levels key levels (place_level key i ms out))
          ≡ some (place_at i (length ms) (last_at n (sort_members key ms)))
    placed_first n i ms levels out v u h =
        place_levels-absent n levels (place_level key i ms out) (absent n levels v u)
        ∙ ground (
          arith,
          occ-sort_members key n ms,
          place_members-get i (length ms) 0 (sort_members key ms) out n,
          zero-add (last_at n (sort_members key ms)),
        )

    -- Where a name ends up: at its last place in the level of its depth.
    pub place_levels-get :
        (n : ℕ) (levels : Dict (List ℕ)) (out : Dict NodePos)
        → IsLeveled levels
        → IsOnce levels
        → 0 < occ n (members_at (f n) levels)
        → get n (place_levels key levels out)
          ≡ some (
              place_at
                (f n)
                (length (members_at (f n) levels))
                (last_at n (sort_members key (members_at (f n) levels))))
    place_levels-get n [] out v u h = absurd (omega arith)
    place_levels-get n ((i, ms) ∷ levels) out v u h = elim (Bool-cases (i == f n)) [
      | inl e ↦
          let same : i ≡ f n = ground arith in
          let alone : occ (f n) (keys levels) ≡ 0 = ground (arith, u (f n)) in
          let here : 0 < occ n ms = ground arith in
          rw (e) (
            subst
              (λ j.
                get n (place_levels key levels (place_level key i ms out))
                ≡ some (place_at j (length ms) (last_at n (sort_members key ms))))
              same (placed_first n i ms levels out v.1 alone here))
      | inr e ↦
          let further : 0 < occ n (members_at (f n) levels) = ground arith in
          rw (e) (
            place_levels-get n levels (place_level key i ms out) v.1
              (λ w. let one = u w in ground arith) further)
    ]

-- The grouping by depth.
module _ (d : Dict ℕ) where
  abbrev pub depth_in : ℕ → ℕ
  depth_in n = or_else 0 (get n d)

  pub levels_of-IsLeveled :
      (ns : List ℕ) (levels : Dict (List ℕ))
      → IsLeveled depth_in levels
      → IsLeveled depth_in (levels_of ns d levels)
  levels_of-IsLeveled [] levels v = v
  levels_of-IsLeveled (n ∷ ns) levels v =
      levels_of-IsLeveled ns (add_member (depth_in n) n levels)
        (add_member-IsLeveled depth_in n levels v)

  pub levels_of-IsOnce :
      (ns : List ℕ) (levels : Dict (List ℕ))
      → IsOnce depth_in levels
      → IsOnce depth_in (levels_of ns d levels)
  levels_of-IsOnce [] levels u = u
  levels_of-IsOnce (n ∷ ns) levels u =
      levels_of-IsOnce ns (add_member (depth_in n) n levels) (add_member-IsOnce depth_in n levels u)

  -- Each name is a member of the level of its depth.
  pub levels_of-members :
      (m : ℕ) (ns : List ℕ) (levels : Dict (List ℕ))
      → occ m (members_at depth_in (depth_in m) (levels_of ns d levels))
        ≡ occ m ns + occ m (members_at depth_in (depth_in m) levels)
  levels_of-members m [] levels = omega arith
  levels_of-members m (n ∷ ns) levels =
      let ih = levels_of-members m ns (add_member (depth_in n) n levels) in
      let joined = add_member-members depth_in m n levels in
      elim (Bool-cases (n == m)) [
        | inl e ↦ ih ∙ ap (λ c. occ m ns + c) joined ∙ rw (e) (omega arith)
        | inr e ↦ ih ∙ ap (λ c. occ m ns + c) joined ∙ rw (e) (omega arith)
      ]
