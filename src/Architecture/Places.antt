-- ===== src/Architecture/Places.antt =====
-- Where `compute_layout` of app/services/mappers/layout.py draws the names.
use mathlib.Core.Path.{subst}
use astra_back.Prelude.{
  ℕ, ◌<◌, ◌≡◌, ◌≢◌, ◌∙◌, ap, sym, none, some, List, [], length, occ, arith, Option-cases, inl, inr,
  Dict, get,
}
use astra_back.Architecture.{
  NodePos, place_at, preds_of, depths, sort_members, levels_of, place_levels, index_in,
  compute_layout,
}
use astra_back.Architecture.Grid.{place_at_apart}
use astra_back.Architecture.Levels.{
  last_at, last_at-lt, last_at-apart, occ-sort_members, length-sort_members, members_at, depth_in,
  place_levels-get, levels_of-IsLeveled, levels_of-IsOnce, levels_of-members,
}

abbrev depth_of_place : NodePos → ℕ
depth_of_place p = p.depth

place_at-depth : (depth k i : ℕ) → (place_at depth k i).depth ≡ depth
unfolding place_at
place_at-depth depth k i = ground arith

module _ (names : List ℕ) (d : Dict ℕ) (key : ℕ → ℕ) where
  abbrev level : ℕ → List ℕ
  level k = members_at (depth_in d) k (levels_of names d [])

  abbrev spot : ℕ → ℕ → NodePos
  spot k n = place_at k (length (level k)) (last_at n (sort_members key (level k)))

  member : (n : ℕ) → 0 < occ n names → 0 < occ n (sort_members key (level (depth_in d n)))
  member n h =
      omega (arith, occ-sort_members key n (level (depth_in d n)), levels_of-members d n names [])

  spot-get :
      (n : ℕ)
      → 0 < occ n names
      → get n (place_levels key (levels_of names d []) []) ≡ some (spot (depth_in d n) n)
  spot-get n h =
      place_levels-get (depth_in d) key n (levels_of names d []) []
        (levels_of-IsLeveled d names [] tt) (levels_of-IsOnce d names [] (λ v. omega arith))
        (omega (arith, levels_of-members d n names []))

  -- Two members of one level have two places in it.
  level_apart :
      (k n m : ℕ)
      → 0 < occ n (sort_members key (level k))
      → 0 < occ m (sort_members key (level k))
      → spot k n ≡ spot k m
      → n ≡ m
  level_apart k n m h h' e =
      let ms = sort_members key (level k) in
      let whole = length-sort_members key (level k) in
      let inside = last_at-lt n ms h in
      let inside' = last_at-lt m ms h' in
      last_at-apart n m ms h h' (
        place_at_apart k (length (level k)) (last_at n ms) (last_at m ms) (omega arith)
          (omega arith) e)

  spot_apart :
      (n m : ℕ)
      → 0 < occ n names
      → 0 < occ m names
      → spot (depth_in d n) n ≡ spot (depth_in d m) m
      → n ≡ m
  spot_apart n m h h' e =
      let a = depth_in d n in
      let b = depth_in d m in
      let same : a ≡ b =
        sym (place_at-depth a (length (level a)) (last_at n (sort_members key (level a))))
        ∙ ap depth_of_place e
        ∙ place_at-depth b (length (level b)) (last_at m (sort_members key (level b))) in
      level_apart a n m (member n h)
        (subst (λ k. 0 < occ m (sort_members key (level k))) (sym same) (member m h'))
        (e ∙ ap (λ k. spot k m) (sym same))

-- In a layout that is found every name has a place, and two names have two places: no two operators
-- are drawn one over the other, whether their levels are single, rows or grids.
pub compute_layout_distinct :
    (names : List ℕ) (edges : List (ℕ × ℕ)) (order : Dict ℕ) (drawn : Dict NodePos)
    → compute_layout names edges order ≡ some drawn
    → (n m : ℕ) → 0 < occ n names
    → 0 < occ m names
    → n ≢ m
    → (p : NodePos) × (q : NodePos) × (get n drawn ≡ some p) × (get m drawn ≡ some q) × (p ≢ q)
unfolding compute_layout
compute_layout_distinct names edges order drawn h n m hn hm apart =
    elim (Option-cases (depths (preds_of names edges) names [])) [
      | inl e ↦ let failed : none ≡ some drawn = rw (e, compute_layout) at h in cc
      | inr (d, e) ↦
          let key = index_in order in
          let found : some (place_levels key (levels_of names d []) []) ≡ some drawn =
            rw (e, compute_layout) at h in
          let same : place_levels key (levels_of names d []) [] ≡ drawn = cc in
          (
            spot names d key (depth_in d n) n,
            spot names d key (depth_in d m) m,
            subst (λ l. get n l ≡ some (spot names d key (depth_in d n) n)) same
                (spot-get names d key n hn),
            subst (λ l. get m l ≡ some (spot names d key (depth_in d m) m)) same
                (spot-get names d key m hm),
            λ q. apart (spot_apart names d key n m hn hm q),
          )
    ]
