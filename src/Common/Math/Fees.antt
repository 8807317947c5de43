-- ===== src/Common/Math/Fees.antt =====
-- Fees in basis points: what `calculate_percentage` and `apply_fee` of math.rs return.
use native.Mathlib.Nat.{div-le_of_le-mul}
use moistello_contracts.Prelude.{
  ℕ, ◌-◌, ◌*◌, ◌/◌, ◌≤◌, ◌<◌, ◌≡◌, ℤ, pos, ◌+ℤ◌, arith, leb, i128_max, if◌then◌else◌, int_laws,
  some, ap, pos_part, neg_part, ◌&&◌, checked_sub, checked_sub-eq, checked_mul_pos,
  checked_mul_overflow, checked_div_pos, checked_sub_pos,
}
use moistello_contracts.Soroban.Result.{ok, err}
use moistello_contracts.Common.Math.{
  overflow, calculate_percentage, apply_fee, safe_mul, safe_div, safe_sub,
}

-- The share of `a` at `bps` basis points, rounded down.
abbrev pub share : ℕ → ℕ → ℕ
share a bps = a * bps / 10000

pub share-le : (a bps : ℕ) → bps ≤ 10000 → share a bps ≤ a
share-le a bps h = div-le_of_le-mul 10000 (grind arith)

pub calculate_percentage_pos :
    (a bps : ℕ)
    → bps ≤ 10000
    → a * bps ≤ i128_max
    → calculate_percentage (pos a) (pos bps) ≡ ok (pos (share a bps))
unfolding calculate_percentage safe_mul safe_div
calculate_percentage_pos a bps h fits =
    ground (arith, checked_mul_pos a bps, checked_div_pos (a * bps) 10000)

pub calculate_percentage_overflow :
    (a bps : ℕ) → i128_max < a * bps → calculate_percentage (pos a) (pos bps) ≡ err overflow
unfolding calculate_percentage safe_mul
calculate_percentage_overflow a bps big = ground (arith, checked_mul_overflow a bps)

pub calculate_percentage_rate :
    (a bps : ℕ) → 10000 < bps → calculate_percentage (pos a) (pos bps) ≡ err overflow
unfolding calculate_percentage
calculate_percentage_rate a bps big = ground arith

-- The fee of an amount that is not negative, on every branch: the rounded-down share goes to the
-- fee and the rest is kept, unless the rate is above 10000 or the product leaves `i128`.
pub apply_fee_lem :
    (a bps : ℕ)
    → a ≤ i128_max
    → apply_fee (pos a) (pos bps) ≡ (
        if leb bps 10000 && leb (a * bps) i128_max
        then ok (pos (a - share a bps), pos (share a bps))
        else err overflow)
unfolding apply_fee safe_sub
apply_fee_lem a bps fits = ground (
  arith,
  calculate_percentage_pos a bps,
  calculate_percentage_overflow a bps,
  calculate_percentage_rate a bps,
  checked_sub_pos a (share a bps),
  share-le a bps,
)

-- Whatever the signs, a fee that is taken and the rest that is kept add up to the amount.
pub apply_fee-sum :
    (amount fee_bps : ℤ) {net fee : ℤ}
    → apply_fee amount fee_bps ≡ ok (net, fee)
    → net +ℤ fee ≡ amount
unfolding apply_fee safe_sub
apply_fee-sum amount fee_bps {net} {fee} h =
    let kept : checked_sub amount fee ≡ some net = ground arith in
    omega (
      int_laws,
      ap pos_part (checked_sub-eq amount fee kept).0,
      ap neg_part (checked_sub-eq amount fee kept).0,
    )
