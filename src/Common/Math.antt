-- ===== src/Common/Math.antt =====
-- packages/common/src/math.rs: checked arithmetic on `i128`, fees in basis points, fixed point,
-- and proportional shares.
pub mod Fees
pub mod Shares
pub mod FixedPoint
pub mod Exact
use moistello_contracts.Prelude.{
  ◌||◌, ◌^◌, ℤ, pos, checked_add, checked_sub, checked_mul, checked_div, eqb_ℤ, ltb_ℤ,
}
use moistello_contracts.Soroban.Result.{Result, ok, ◌>>=◌, ◌>>◌, result_ok_or, result_fail_if}

pub data MathError : Type 0 where
  overflow underflow division_by_zero : MathError

unfoldable pub safe_add : ℤ → ℤ → Result MathError ℤ
safe_add a b = result_ok_or (checked_add a b) overflow

unfoldable pub safe_sub : ℤ → ℤ → Result MathError ℤ
safe_sub a b = result_ok_or (checked_sub a b) underflow

unfoldable pub safe_mul : ℤ → ℤ → Result MathError ℤ
safe_mul a b = result_ok_or (checked_mul a b) overflow

unfoldable pub safe_div : ℤ → ℤ → Result MathError ℤ
safe_div a b = do
  result_fail_if (eqb_ℤ b (pos 0)) division_by_zero
  result_ok_or (checked_div a b) overflow

unfoldable pub calculate_percentage : ℤ → ℤ → Result MathError ℤ
calculate_percentage amount bps = do
  result_fail_if (ltb_ℤ bps (pos 0) || ltb_ℤ (pos 10000) bps) overflow
  product ← safe_mul amount bps
  safe_div product (pos 10000)

unfoldable pub apply_fee : ℤ → ℤ → Result MathError (ℤ × ℤ)
apply_fee amount fee_bps = do
  fee ← calculate_percentage amount fee_bps
  net ← safe_sub amount fee
  ok (net, fee)

unfoldable pub calculate_penalty : ℤ → ℤ → Result MathError ℤ
calculate_penalty amount penalty_bps = calculate_percentage amount penalty_bps

-- `SCALAR`
abbrev pub scalar : ℤ
scalar = pos (10 ^ 7)

unfoldable pub fp_add : ℤ → ℤ → Result MathError ℤ
fp_add a b = result_ok_or (checked_add a b) overflow

unfoldable pub fp_sub : ℤ → ℤ → Result MathError ℤ
fp_sub a b = result_ok_or (checked_sub a b) underflow

unfoldable pub fp_mul : ℤ → ℤ → Result MathError ℤ
fp_mul a b = do
  product ← result_ok_or (checked_mul a b) overflow
  result_ok_or (checked_div product scalar) overflow

unfoldable pub fp_div : ℤ → ℤ → Result MathError ℤ
fp_div a b = do
  result_fail_if (eqb_ℤ b (pos 0)) division_by_zero
  scaled ← result_ok_or (checked_mul a scalar) overflow
  result_ok_or (checked_div scaled b) overflow

unfoldable pub convert_shares : ℤ → ℤ → ℤ → Result MathError ℤ
convert_shares member_shares total_shares pool_amount = do
  result_fail_if (eqb_ℤ total_shares (pos 0)) division_by_zero
  numerator ← safe_mul member_shares pool_amount
  safe_div numerator total_shares
