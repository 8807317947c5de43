-- ===== src/Staking/Admin.antt =====
-- The administration and the queries of packages/staking/src/contract.rs.
use moistello_contracts.Prelude.{
  ℕ, ℤ, pos, ◌-◌, ◌/◌, ◌||◌, ◌==◌, leb, if◌then◌else◌, Option, none, some, List, min, as_u128,
  as_i128, saturating_mul_u128,
}
use moistello_contracts.Soroban.Contract.{
  Address, Env, M, ◌>>=◌, ◌>>◌, pure, gets, modify, map_err, require_auth,
}
use moistello_contracts.Soroban.Map.{get, address_key}
use moistello_contracts.Common.Pause
use moistello_contracts.Staking.Types.{
  StakePosition, UnbondingPosition, StakingError, contract_paused, voting_power_queried, Store, Op,
  publish, staking_pause,
}
use moistello_contracts.Staking.Positions.{when_not_paused, total_of, stakers_of}
use moistello_contracts.Staking.Slashing.{check_admin}

-- The amount that has been staked for its whole period counts in full.
unfoldable pub time_weighted : ℕ → StakePosition → ℤ
time_weighted now position =
    let total_span = position.unlock_time - position.start_time in
    if total_span == 0 || leb now position.start_time
    then position.amount
    else as_i128 (
        saturating_mul_u128 (as_u128 position.amount) (min (now - position.start_time) total_span)
        / total_span)

abbrev pub stake_amount : Option StakePosition → ℤ
stake_amount none = pos 0
stake_amount (some position) = position.amount

abbrev pub stake_power : Option StakePosition → ℤ
stake_power none = pos 0
stake_power (some position) = position.voting_power

abbrev pub weighted_amount : ℕ → Option StakePosition → ℤ
weighted_amount now none = pos 0
weighted_amount now (some position) = time_weighted now position

module _ {W : Type 0} where
  unfoldable pub pause : Env → Address → Op W
  pause env admin = do check_admin admin; map_err (λ _. contract_paused) (Pause.pause env admin)

  unfoldable pub unpause : Env → Address → Op W
  unpause env admin = do check_admin admin; map_err (λ _. contract_paused) (Pause.unpause env admin)

  unfoldable pub update_admin : Env → Address → Address → Op W
  update_admin env current_admin new_admin = do
    when_not_paused
    check_admin current_admin
    require_auth env current_admin
    modify (λ s. record s { admin = some new_admin })

  -- A position in its unbonding period and no position at all have the same power, which is zero.
  unfoldable pub get_voting_power : Address → M (Store W) StakingError ℤ
  get_voting_power user = do
    power ← gets (λ s. stake_power (get user s.stakes))
    publish (voting_power_queried user power)
    pure power

  unfoldable pub get_stake : Store W → Address → Option StakePosition
  get_stake s user = get user s.stakes

  unfoldable pub get_stake_amount : Store W → Address → ℤ
  get_stake_amount s user = stake_amount (get user s.stakes)

  unfoldable pub get_all_stakers : Store W → List Address
  get_all_stakers s = stakers_of s

  unfoldable pub get_unbonding : Store W → Address → Option UnbondingPosition
  get_unbonding s user = get user s.unbonding

  unfoldable pub get_total_staked : Store W → ℤ
  get_total_staked s = total_of s

  unfoldable pub get_time_weighted_amount : Env → Store W → Address → ℤ
  get_time_weighted_amount env s user = weighted_amount env.timestamp (get user s.stakes)
