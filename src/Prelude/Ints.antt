-- ===== src/Prelude/Ints.antt =====
-- Signed differences of native numbers, and division rounded to the nearest, half to even.
use Prim.Native.Nat.{ℕ, ◌+◌, ◌-◌, ◌*◌, ◌/◌, ◌%◌, ◌≤◌}
use native.Mathlib.Omega.{arith}
use astra_back.Prelude.Tests.{ltb, leb, if◌then◌else◌}

-- `negsuc n` is -(n + 1).
pub data ℤ : Type 0 where
  pos : ℕ → ℤ
  negsuc : ℕ → ℤ

-- a - b, as an integer.
abbrev pub sub_ℕ : ℕ → ℕ → ℤ
sub_ℕ a b = if leb b a then pos (a - b) else negsuc (b - a - 1)

-- Python's `round(n / 100)`: a half goes to the even neighbour.
abbrev pub round_percent : ℕ → ℕ
round_percent n =
    if ltb (n % 100) 50
    then n / 100
    else if ltb 50 (n % 100)
    then n / 100 + 1
    else n / 100 + (n / 100) % 2

-- Python's `round(x, 1)` on hundredths.
abbrev pub round_tenth : ℕ → ℕ
round_tenth n =
    10
    * (if ltb (n % 10) 5
        then n / 10
        else if ltb 5 (n % 10)
        then n / 10 + 1
        else n / 10 + (n / 10) % 2)

pub round_percent-le : (n k : ℕ) → n ≤ 100 * k → round_percent n ≤ k
round_percent-le n k h = ground arith
