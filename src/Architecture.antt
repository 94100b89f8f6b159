-- ===== src/Architecture.antt =====
-- app/services/mappers/layout.py: where the operators of an architecture are drawn. A name is a number;
-- columns are in thousandths of the unit of the view, which is what the source rounds them to.
pub mod Depths
pub mod Grid
pub mod Levels
pub mod Places
use astra_back.Prelude.{
  ℕ, zero, suc, ◌+◌, ◌-◌, ◌*◌, ◌/◌, ◌%◌, max, Bool, ◌&&◌, Option, none, some, List, [], ◌∷◌, ◌++◌,
  ltb, leb, ◌==◌, any, length, ℤ, pos, sub_ℕ, Dict, get, set, or_else, if◌then◌else◌,
}

abbrev pub has_name : ℕ → List ℕ → Bool
has_name n names = any (λ m. m == n) names

-- `preds[n]`: an edge that leaves the kept nodes is passed over.
abbrev pub preds_of : List ℕ → List (ℕ × ℕ) → ℕ → List ℕ
preds_of names [] n = []
preds_of names ((frm, to) ∷ edges) n =
    let rest = preds_of names edges n in
    if (to == n) && (has_name frm names && has_name to names) then frm ∷ rest else rest

abbrev larger : Option ℕ → Option ℕ → Option ℕ
larger none o = o
larger (some a) none = some a
larger (some a) (some b) = some (max a b)

-- `max(depth[p] for p in ps if p in depth)`; `none` is `ValueError`, of no values.
abbrev pub max_known : List ℕ → Dict ℕ → Option ℕ
max_known [] d = none
max_known (p ∷ ps) d = larger (get p d) (max_known ps d)

abbrev deeper : Option ℕ → Option ℕ
deeper none = none
deeper (some k) = some (suc k)

abbrev pub depth_of : List ℕ → Dict ℕ → Option ℕ
depth_of [] d = some 0
depth_of (p ∷ ps) d = deeper (max_known (p ∷ ps) d)

unfoldable pub depths : (ℕ → List ℕ) → List ℕ → Dict ℕ → Option (Dict ℕ)
depths preds [] d = some d
depths preds (n ∷ ns) d = elim (depth_of (preds n) d) [
  | none ↦ none
  | some k ↦ depths preds ns (set n k d)
]

-- `levels.setdefault(depth[n], []).append(n)`
abbrev pub add_member : ℕ → ℕ → Dict (List ℕ) → Dict (List ℕ)
add_member depth n levels = set depth (or_else [] (get depth levels) ++ n ∷ []) levels

abbrev pub levels_of : List ℕ → Dict ℕ → Dict (List ℕ) → Dict (List ℕ)
levels_of [] d levels = levels
levels_of (n ∷ ns) d levels = levels_of ns d (add_member (or_else 0 (get n d)) n levels)

-- `members.sort(key=order_index)`, which is stable
abbrev pub insert_member : (ℕ → ℕ) → ℕ → List ℕ → List ℕ
insert_member key n [] = n ∷ []
insert_member key n (m ∷ ms) =
    let rest = insert_member key n ms in if ltb (key m) (key n) then m ∷ rest else n ∷ m ∷ ms

abbrev pub sort_members : (ℕ → ℕ) → List ℕ → List ℕ
sort_members key [] = []
sort_members key (n ∷ ns) = insert_member key n (sort_members key ns)

pub record NodePos : Type 0 where
  pub depth : ℕ
  pub col : ℤ
  pub z_col : Option ℤ

-- `(i - (k - 1) / 2) * COL_GAP`
abbrev pub centred : ℕ → ℕ → ℤ
centred i k = sub_ℕ (2 * i * 1700) ((k - 1) * 1700)

-- `math.ceil(math.sqrt(k))`: the least number from `c` on whose square is `k` or more, with fuel.
abbrev pub ceil_sqrt : ℕ → ℕ → ℕ → ℕ
ceil_sqrt zero c k = c
ceil_sqrt (suc fuel) c k = let rest = ceil_sqrt fuel (suc c) k in if leb k (c * c) then c else rest

abbrev pub ceil_div : ℕ → ℕ → ℕ
ceil_div k c = (k + c - 1) / c

abbrev pub row_pos : ℕ → ℕ → ℕ → NodePos
row_pos depth k i = record { depth = depth; col = centred i k; z_col = none }

abbrev pub grid_pos : ℕ → ℕ → ℕ → NodePos
grid_pos depth k i =
    let cols = ceil_sqrt k 1 k in
    record {
      depth = depth;
      col = centred (i % cols) cols;
      z_col = some (centred (i / cols) (ceil_div k cols));
    }

-- The place of member `i` of a level of `k` members.
unfoldable pub place_at : ℕ → ℕ → ℕ → NodePos
place_at depth k i =
    if k == 1
    then record { depth = depth; col = pos 0; z_col = none }
    else if leb k 4
    then row_pos depth k i
    else grid_pos depth k i

abbrev pub place_members : ℕ → ℕ → ℕ → List ℕ → Dict NodePos → Dict NodePos
place_members depth k i [] out = out
place_members depth k i (n ∷ ns) out =
    place_members depth k (suc i) ns (set n (place_at depth k i) out)

abbrev pub place_level : (ℕ → ℕ) → ℕ → List ℕ → Dict NodePos → Dict NodePos
place_level key depth members out =
    place_members depth (length members) 0 (sort_members key members) out

abbrev pub place_levels : (ℕ → ℕ) → Dict (List ℕ) → Dict NodePos → Dict NodePos
place_levels key [] out = out
place_levels key ((depth, members) ∷ levels) out =
    place_levels key levels (place_level key depth members out)

-- `order_index.get(n, 0)`
abbrev pub index_in : Dict ℕ → ℕ → ℕ
index_in order n = or_else 0 (get n order)

unfoldable pub compute_layout : List ℕ → List (ℕ × ℕ) → Dict ℕ → Option (Dict NodePos)
unfolding depths
compute_layout names edges order = elim (depths (preds_of names edges) names []) [
  | none ↦ none
  | some d ↦ some (place_levels (index_in order) (levels_of names d []) [])
]
