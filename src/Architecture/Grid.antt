-- ===== src/Architecture/Grid.antt =====
-- No two indices of a level in app/services/mappers/layout.py have one place.
use mathlib.Core.Path.{subst}
use native.Mathlib.Nat.{div-add-mod, mul-le-mul}
use astra_back.Prelude.{
  ℕ, zero, suc, if-by, leb→le, ◌+◌, ◌-◌, ◌*◌, ◌/◌, ◌%◌, ◌≤◌, ◌<◌, ◌≡◌, ap, Option, some, leb, ◌==◌,
  arith, Bool-cases, inl, inr, ℤ, sub_ℕ,
}
use astra_back.Architecture.{NodePos, place_at, row_pos, grid_pos, centred, ceil_sqrt, ceil_div}

sub_ℕ_apart : (a b c : ℕ) → sub_ℕ a c ≡ sub_ℕ b c → a ≡ b
sub_ℕ_apart a b c h = ground arith

centred_apart : (i j k : ℕ) → centred i k ≡ centred j k → i ≡ j
centred_apart i j k h =
    let e : 2 * i * 1700 ≡ 2 * j * 1700 =
      sub_ℕ_apart (2 * i * 1700) (2 * j * 1700) ((k - 1) * 1700) h in
    omega arith

abbrev col_of : NodePos → ℤ
col_of p = p.col

abbrev z_col_of : NodePos → Option ℤ
z_col_of p = p.z_col

grid_apart : (c i j : ℕ) → i % c ≡ j % c → i / c ≡ j / c → i ≡ j
grid_apart c i j h k =
    let a : c * (i / c) + i % c ≡ i = div-add-mod i c in
    let b : c * (j / c) + j % c ≡ j = div-add-mod j c in cc

some_apart : (a b : ℤ) → some a ≡ some b → a ≡ b
some_apart a b h = cc

-- A level of more than four members is a grid.
wide_apart :
    (c r i j : ℕ)
    → centred (i % c) c ≡ centred (j % c) c
    → some (centred (i / c) r) ≡ some (centred (j / c) r)
    → i ≡ j
wide_apart c r i j h k =
    grid_apart c i j (centred_apart (i % c) (j % c) c h)
      (centred_apart (i / c) (j / c) r (some_apart _ _ k))

pub place_at_apart :
    (depth k i j : ℕ) → i < k → j < k → place_at depth k i ≡ place_at depth k j → i ≡ j
unfolding place_at
place_at_apart depth k i j hi hj h = elim (Bool-cases (k == 1)) [
  | inl t ↦ let one : k ≡ 1 = ground arith in omega arith
  | inr t ↦ elim (Bool-cases (leb k 4)) [
    | inl u ↦
        let e : row_pos depth k i ≡ row_pos depth k j = rw (t, u) at h in
        centred_apart i j k (ap col_of e)
    | inr u ↦
        let c : ℕ = ceil_sqrt k 1 k in
        let e : grid_pos depth k i ≡ grid_pos depth k j = rw (t, u) at h in
        wide_apart c (ceil_div k c) i j (ap col_of e) (ap z_col_of e)
  ]
]

-- The fuel of the square root is enough: its square covers the level.
ceil_sqrt-covers :
    (fuel c k : ℕ) → k ≤ (c + fuel) * (c + fuel) → k ≤ ceil_sqrt fuel c k * ceil_sqrt fuel c k
ceil_sqrt-covers zero c k h = let e : c + zero ≡ c = omega arith in subst (λ n. k ≤ n * n) e h
ceil_sqrt-covers (suc fuel) c k h =
    let e : c + suc fuel ≡ suc c + fuel = omega arith in
    let rest : k ≤ ceil_sqrt fuel (suc c) k * ceil_sqrt fuel (suc c) k =
      ceil_sqrt-covers fuel (suc c) k (subst (λ n. k ≤ n * n) e h) in
    if-by (λ r. k ≤ r * r) (leb k (c * c)) c (ceil_sqrt fuel (suc c) k) (λ t. leb→le k (c * c) t)
      (λ t. rest)

grid-covers : (k : ℕ) → k ≤ ceil_sqrt k 1 k * ceil_sqrt k 1 k
grid-covers k =
    let one : 1 ≤ 1 + k = omega arith in
    let all : 1 + k ≤ 1 + k = omega arith in
    ceil_sqrt-covers k 1 k (omega (arith, mul-le-mul one all))
