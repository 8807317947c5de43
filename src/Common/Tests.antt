-- ===== src/Common/Tests.antt =====
-- Runs of the shared helpers, and their theorems at concrete inputs.
mod Vrf
use moistello_contracts.Prelude.{
  ◌≡◌, refl, ◌≤◌, pos, negsuc, ◌+ℤ◌, ◌-ℤ◌, ◌*ℤ◌, ◌/ℤ◌, checked_sub, checked_mul, checked_div, arith,
  [], ◌∷◌, if◌then◌else◌, leb, ◌&&◌, ◌*◌, ◌-◌, i128_max,
}
use moistello_contracts.Soroban.Result.{ok, err, ◌>>=◌}
use moistello_contracts.Common.Math.{
  overflow, division_by_zero, safe_sub, safe_mul, safe_div, calculate_percentage, apply_fee, fp_mul,
  fp_div,
}
use moistello_contracts.Common.Math.Fees.{apply_fee_lem, apply_fee-sum, share}
use moistello_contracts.Common.Math.Shares.{sum_paid, sum_paid-le}
use moistello_contracts.Common.Math.FixedPoint.{fp_div-fp_mul}

-- A fee of 1% of 1000, as in the crate's own example.
apply_fee_run : apply_fee (pos 1000) (pos 100) ≡ ok (pos 990, pos 10)
unfolding apply_fee calculate_percentage safe_sub safe_mul safe_div checked_sub checked_mul
    checked_div ◌-ℤ◌ ◌*ℤ◌ ◌/ℤ◌
apply_fee_run = refl

-- Division rounds towards zero: -6.0 / 2.0 = -3.0, and 1.0 / 0 is refused.
fp_div_run :
    (fp_div (negsuc 59999999) (pos 20000000) ≡ ok (negsuc 29999999))
    × (fp_div (pos 10000000) (pos 0) ≡ err division_by_zero)
unfolding fp_div checked_mul checked_div ◌*ℤ◌ ◌/ℤ◌
fp_div_run = (refl, refl)

apply_fee_lem_example : apply_fee (pos 1999) (pos 50) ≡ (
    if leb 50 10000 && leb (1999 * 50) i128_max
    then ok (pos (1999 - share 1999 50), pos (share 1999 50))
    else err overflow)
apply_fee_lem_example = apply_fee_lem 1999 50 (omega arith)

apply_fee-sum_example : pos 990 +ℤ pos 10 ≡ pos 1000
apply_fee-sum_example = apply_fee-sum (pos 1000) (pos 100) apply_fee_run

sum_paid-le_example : sum_paid 10 99 (3 ∷ 3 ∷ 4 ∷ []) ≤ 99
sum_paid-le_example = sum_paid-le 10 99 (3 ∷ 3 ∷ 4 ∷ []) (omega arith) (omega arith) (omega arith)

fp_div-fp_mul_example :
    (fp_mul (pos 50000000) (pos 40000000) >>= λ product. fp_div product (pos 40000000))
    ≡ ok (pos 50000000)
fp_div-fp_mul_example = fp_div-fp_mul 50000000 40000000 200000000 (omega arith) refl (omega arith)
