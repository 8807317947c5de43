-- ===== src/Common/Math/Shares.antt =====
-- Proportional distribution by `convert_shares` of math.rs.
use native.Mathlib.Nat.{div-mul-le_self}
use moistello_contracts.Prelude.{
  ℕ, ◌+◌, ◌*◌, ◌/◌, ◌≤◌, ◌<◌, ◌≡◌, ℤ, pos, arith, i128_max, pos_part, List, [], ◌∷◌,
  checked_mul_pos, checked_div_pos,
}
use moistello_contracts.Soroban.Result.{Result, ok, err, trap}
use moistello_contracts.Common.Math.{MathError, convert_shares, safe_mul, safe_div}

pub convert_shares_pos :
    (s total pool : ℕ)
    → 0 < total
    → s * pool ≤ i128_max
    → convert_shares (pos s) (pos total) (pos pool) ≡ ok (pos (s * pool / total))
unfolding convert_shares safe_mul safe_div
convert_shares_pos s total pool some_share fits =
    ground (arith, checked_mul_pos s pool, checked_div_pos (s * pool) total)

-- The amount that a conversion returns; nothing on an error.
abbrev pub paid : Result MathError ℤ → ℕ
paid (ok v) = pos_part v
paid (err e) = 0
paid trap = 0

abbrev pub sum_shares : List ℕ → ℕ
sum_shares [] = 0
sum_shares (s ∷ ss) = s + sum_shares ss

-- What members with these shares receive together.
abbrev pub sum_paid : ℕ → ℕ → List ℕ → ℕ
sum_paid total pool [] = 0
sum_paid total pool (s ∷ ss) =
    paid (convert_shares (pos s) (pos total) (pos pool)) + sum_paid total pool ss

paid-mul-le :
    (s total pool : ℕ)
    → 0 < total
    → s * pool ≤ i128_max
    → paid (convert_shares (pos s) (pos total) (pos pool)) * total ≤ s * pool
paid-mul-le s total pool p fits =
    rw (convert_shares_pos s total pool p fits) (div-mul-le_self (s * pool) total)

sum_paid-mul-le :
    (total pool : ℕ) (ss : List ℕ)
    → 0 < total
    → sum_shares ss * pool ≤ i128_max
    → sum_paid total pool ss * total ≤ sum_shares ss * pool
sum_paid-mul-le total pool [] p fits = omega arith
sum_paid-mul-le total pool (s ∷ ss) p fits =
    omega (
      arith,
      paid-mul-le s total pool p (omega arith),
      sum_paid-mul-le total pool ss p (omega arith),
    )

le_of_mul-le : (a b t : ℕ) → 0 < t → a * t ≤ t * b → a ≤ b
le_of_mul-le a b t p h = grind arith

-- Members whose shares add up to at most the outstanding total are together never paid more than
-- the pool, as long as the total times the pool fits in `i128`.
pub sum_paid-le :
    (total pool : ℕ) (ss : List ℕ)
    → 0 < total
    → total * pool ≤ i128_max
    → sum_shares ss ≤ total
    → sum_paid total pool ss ≤ pool
sum_paid-le total pool ss p fits covered =
    let scaled : sum_shares ss * pool ≤ total * pool = grind arith in
    le_of_mul-le _ pool total p
      (omega (arith, scaled, sum_paid-mul-le total pool ss p (omega arith)))
