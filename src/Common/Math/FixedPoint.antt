-- ===== src/Common/Math/FixedPoint.antt =====
-- Fixed-point multiplication and division of math.rs.
use native.Mathlib.Nat.{mul-div_cancel}
use moistello_contracts.Prelude.{
  ℕ, ◌*◌, ◌/◌, ◌^◌, ◌≤◌, ◌<◌, ◌≡◌, pos, arith, i128_max, checked_mul_pos, checked_div_pos,
}
use moistello_contracts.Soroban.Result.{ok, ◌>>=◌}
use moistello_contracts.Common.Math.{fp_mul, fp_div}

fp_mul_pos : (a b : ℕ) → a * b ≤ i128_max → fp_mul (pos a) (pos b) ≡ ok (pos (a * b / 10 ^ 7))
unfolding fp_mul
fp_mul_pos a b fits = ground (arith, checked_mul_pos a b, checked_div_pos (a * b) (10 ^ 7))

fp_div_pos :
    (a b : ℕ) → 0 < b → a * 10 ^ 7 ≤ i128_max → fp_div (pos a) (pos b) ≡ ok (pos (a * 10 ^ 7 / b))
unfolding fp_div
fp_div_pos a b p fits = ground (arith, checked_mul_pos a (10 ^ 7), checked_div_pos (a * 10 ^ 7) b)

-- A value `a` that is not negative, multiplied by a positive `b` and then divided by `b`, comes back
-- when the product is a whole number of fixed-point units (`a * b` is a multiple `q` of the scalar)
-- and fits in `i128`.
pub fp_div-fp_mul :
    (a b q : ℕ)
    → 0 < b
    → a * b ≡ q * 10 ^ 7
    → a * b ≤ i128_max
    → (fp_mul (pos a) (pos b) >>= λ product. fp_div product (pos b)) ≡ ok (pos a)
fp_div-fp_mul a b q p whole fits =
    let units : a * b / 10 ^ 7 ≡ q = omega arith in
    let back : q * 10 ^ 7 / b ≡ a = rw (← whole) (mul-div_cancel a p) in
    rw (fp_mul_pos a b fits) (rw units (rw (fp_div_pos q b p (omega arith)) (rw back)))
