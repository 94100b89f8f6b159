-- ===== src/Prelude/Dicts.antt =====
-- Python dictionaries with number keys, in the order of insertion, and occurrences in a list.
use Prim.Native.Nat.{ℕ, suc, ◌+◌}
use mathlib.Core.Path.{◌≡◌, refl}
use mathlib.Core.List.{List, [], ◌∷◌, ◌++◌}
use mathlib.Core.Option.{Option, none, some}
use native.Mathlib.Omega.{arith}
use astra_back.Prelude.Tests.{◌==◌, if◌then◌else◌}

abbrev pub Dict : Type 0 → Type 0
Dict A = List (ℕ × A)

module _ {A : Type 0} where
  -- `d.get(k)`
  abbrev pub get : ℕ → Dict A → Option A
  get k [] = none
  get k ((i, a) ∷ d) = if i == k then some a else get k d

  -- `d[k] = a`
  abbrev pub set : ℕ → A → Dict A → Dict A
  set k a [] = (k, a) ∷ []
  set k a ((i, b) ∷ d) = let rest = set k a d in if i == k then (i, a) ∷ d else (i, b) ∷ rest

  abbrev pub keys : Dict A → List ℕ
  keys [] = []
  keys ((i, a) ∷ d) = i ∷ keys d

  abbrev pub or_else : A → Option A → A
  or_else a none = a
  or_else a (some b) = b

-- How often a number stands in a list.
abbrev pub occ : ℕ → List ℕ → ℕ
occ v [] = 0
occ v (x ∷ xs) = let rest = occ v xs in if x == v then suc rest else rest

pub occ-append : (v : ℕ) (xs ys : List ℕ) → occ v (xs ++ ys) ≡ occ v xs + occ v ys
occ-append v [] ys = omega arith
occ-append v (x ∷ xs) ys = ground (arith, occ-append v xs ys)

module _ {A : Type 0} where
  pub get-set :
      (k v : ℕ) (a : A) (d : Dict A) → get v (set k a d) ≡ (if k == v then some a else get v d)
  get-set k v a [] = refl
  get-set k v a ((i, b) ∷ d) = ground (arith, get-set k v a d)

  -- Setting a key adds it at most once.
  pub occ-keys-set :
      (k v : ℕ) (a : A) (d : Dict A)
      → occ v (keys (set k a d))
        ≡ (if k == v then (if occ v (keys d) == 0 then 1 else occ v (keys d)) else occ v (keys d))
  occ-keys-set k v a [] = ground arith
  occ-keys-set k v a ((i, b) ∷ d) = ground (arith, occ-keys-set k v a d)
