-- ===== src/Reputation/Tiers.antt =====
-- What a tier allows, for packages/reputation-registry/src/scoring.rs.
use moistello_contracts.Prelude.{ℕ, ℤ, ◌≤◌, ◌+◌, arith, saturating_add_u32}
use moistello_contracts.Soroban.Contract.{Address, Env}
use moistello_contracts.Soroban.Map.{address_key, pair_key}
use moistello_contracts.Reputation.Types.{Registry}
use moistello_contracts.Reputation.Storage.{get_score}
use moistello_contracts.Reputation.Scoring.{
  get_tier, by_tier, calculate_collateral, max_circle_size, max_contribution, payment_score,
  record_on_time_payment, counted_streak, streak_bonus, volume_bonus, capped,
}

pub get_tier-le : (a b : ℕ) → a ≤ b → get_tier a ≤ get_tier b
unfolding get_tier
get_tier-le a b le = ground arith

-- A member with the higher score of two needs no more collateral, may create a circle no smaller, and
-- may contribute no less.
pub higher_score_allows :
    (r : Registry) (lower higher : Address)
    → get_score lower r ≤ get_score higher r
    → (calculate_collateral higher r ≤ calculate_collateral lower r)
      × (max_circle_size lower r ≤ max_circle_size higher r)
      × (max_contribution lower r ≤ max_contribution higher r)
unfolding calculate_collateral max_circle_size max_contribution get_tier
higher_score_allows r lower higher le = (
  collateral (get_score lower r) (get_score higher r) le,
  sizes (get_score lower r) (get_score higher r) le,
  amounts (get_score lower r) (get_score higher r) le,
)
  where
    collateral :
        (a b : ℕ)
        → a ≤ b
        → by_tier (get_tier b) 0 100 300 500 1000 ≤ by_tier (get_tier a) 0 100 300 500 1000
    collateral a b le = ground arith

    sizes :
        (a b : ℕ)
        → a ≤ b
        → by_tier (get_tier a) 100 50 20 10 5 ≤ by_tier (get_tier b) 100 50 20 10 5
    sizes a b le = ground arith

    amounts :
        (a b : ℕ)
        → a ≤ b
        → by_tier (get_tier a) 500000000000 100000000000 20000000000 5000000000 1000000000
          ≤ by_tier (get_tier b) 500000000000 100000000000 20000000000 5000000000 1000000000
    amounts a b le = ground arith

pub payment_score_bounds :
    (current streak : ℕ) (amount : ℤ)
    → current ≤ 1000
    → (current ≤ payment_score current streak amount)
      × (payment_score current streak amount ≤ current + 80)
payment_score_bounds current streak amount le =
    by_bonus _ _ (streak_bonus-le streak) (volume_bonus-le amount)
  where
    streak_bonus-le : (streak : ℕ) → streak_bonus streak ≤ 50
    streak_bonus-le streak = ground arith

    volume_bonus-le : (amount : ℤ) → volume_bonus amount ≤ 20
    volume_bonus-le amount = ground arith

    by_bonus :
        (s v : ℕ)
        → s ≤ 50
        → v ≤ 20
        → (current
            ≤ capped (saturating_add_u32 (saturating_add_u32 (saturating_add_u32 current 10) s) v))
          × (capped (saturating_add_u32 (saturating_add_u32 (saturating_add_u32 current 10) s) v)
              ≤ current + 80)
    by_bonus s v ls lv = ground arith

-- On a score of at most 1000, a payment on time never costs points and earns at most 80.
pub record_on_time_payment_bounds :
    (env : Env) (member circle_id : Address) (amount : ℤ) (round : ℕ) (r : Registry)
    → get_score member r ≤ 1000
    → (get_score member r ≤ (record_on_time_payment env member circle_id amount round r).0)
      × ((record_on_time_payment env member circle_id amount round r).0 ≤ get_score member r + 80)
unfolding record_on_time_payment
record_on_time_payment_bounds env member circle_id amount round r le =
    payment_score_bounds (get_score member r) (counted_streak member circle_id round r) amount le
