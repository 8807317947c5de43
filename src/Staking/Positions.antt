-- ===== src/Staking/Positions.antt =====
-- `init`, `stake`, `unstake`, `claim` and `top_up` of packages/staking/src/contract.rs.
use moistello_contracts.Prelude.{
  ℕ, ℤ, pos, ◌-◌, ◌/◌, Bool, not, ◌==◌, leb, ltb, ltb_ℤ, leb_ℤ, if◌then◌else◌, some, false, ◌*ℤ◌,
  ◌%◌, ◌^◌, List, [], ◌∷◌, push_back, checked_add, checked_sub, checked_mul, checked_add_u32,
  checked_add_u64, saturating_mul_u128, as_u128, wrapping_u32,
}
use moistello_contracts.Soroban.Contract.{
  is_some, Address, Env, ◌>>=◌, ◌>>◌, load, gets, modify, fail_if, ok_or, map_err, require_auth,
  unwrap_or,
}
use moistello_contracts.Soroban.Map.{get, set, address_key}
use moistello_contracts.Soroban.Totals.{remove}
use moistello_contracts.Common.Pause
use moistello_contracts.Common.Reentrancy.{guarded}
use moistello_contracts.Common.TokenTransfer.{TokenLedger, client_transfer}
use moistello_contracts.Staking.Types.{
  StakingPeriod, multiplier, as_seconds, from_u32, unbonding_period_seconds, min_stake_amount,
  StakePosition, not_initialized, contract_paused, invalid_amount, invalid_period,
  insufficient_balance, no_active_stake, stake_not_unlocked, unbonding_not_complete,
  no_unbonding_position, already_staked, overflow, insufficient_contract_balance, reentrant_call,
  staked, unstake_initiated, claimed, stake_topped_up, Store, Op, publish, staking_pause,
  staking_lock, staking_ledger,
}

-- The loop that copies the list without a user.
abbrev pub without : Address → List Address → List Address
without user [] = []
without user (a ∷ stakers) = let rest = without user stakers in if a == user then rest else a ∷ rest

unfoldable pub is_period_elapsed : ℕ → ℕ → Bool
is_period_elapsed now deadline = leb deadline now

module _ {W : Type 0} where
  unfoldable pub when_not_paused : Op W
  when_not_paused = map_err (λ _. contract_paused) Pause.when_not_paused

  unfoldable pub init : Env → Address → Address → Op W
  init env admin token = do
    require_auth env admin
    modify (λ s. record s {
      admin = some admin;
      token = some token;
      paused_flag = some false;
      total_staked = some (pos 0);
      staker_list = some [];
    })

  abbrev pub total_of : Store W → ℤ
  total_of s = unwrap_or (pos 0) s.total_staked

  abbrev pub stakers_of : Store W → List Address
  stakers_of s = unwrap_or [] s.staker_list

  -- The total with an amount added or taken.
  unfoldable pub raise_total : ℤ → Op W
  raise_total amount = do
    total ← gets total_of
    new_total ← ok_or (checked_add total amount) overflow
    modify (λ s. record s { total_staked = some new_total })

  unfoldable pub lower_total : ℤ → Op W
  lower_total amount = do
    total ← gets total_of
    new_total ← ok_or (checked_sub total amount) insufficient_balance
    modify (λ s. record s { total_staked = some new_total })

  abbrev pub put_stake : Address → StakePosition → Op W
  put_stake user position = modify (λ s. record s { stakes = set user position s.stakes })

  -- The stake is removed, and the user from the list.
  abbrev pub drop_stake : Address → Op W
  drop_stake user = modify (λ s. record s {
    stakes = remove user s.stakes;
    staker_list = some (without user (stakers_of s));
  })

  unfoldable pub require_no_stake : Address → Op W
  require_no_stake user = do
    held ← gets (λ s. is_some (get user s.stakes))
    fail_if held already_staked

  -- The position of a new stake is stored, and the total raised.
  unfoldable pub open_position : Env → Address → ℤ → StakingPeriod → Op W
  open_position env user amount period = do
    voting_power ← ok_or (checked_mul amount (pos (multiplier period))) overflow
    let period_ledgers = wrapping_u32 (as_seconds period / 5)
    unlock_time ← ok_or (checked_add_u64 env.timestamp (as_seconds period)) overflow
    unlock_ledger ← ok_or (checked_add_u32 env.sequence period_ledgers) overflow
    put_stake user (record {
      amount = amount;
      period = period;
      start_time = env.timestamp;
      unlock_time = unlock_time;
      voting_power = voting_power;
      start_ledger = env.sequence;
      unlock_ledger = unlock_ledger;
    })
    raise_total amount
    modify (λ s. record s { staker_list = some (push_back (stakers_of s) user) })

  -- The stake becomes an unbonding position.
  unfoldable pub start_unbonding : Env → Address → ℤ → ℕ → Op W
  start_unbonding env user amount claimable_time = do
    modify (λ s. record s {
      unbonding =
          set user
            (record {
              amount = amount;
              unbonding_start_time = env.timestamp;
              claimable_time = claimable_time;
            })
            s.unbonding;
    })
    drop_stake user
    lower_total amount

  unfoldable pub unstake : Env → Address → Op W
  unstake env user = do
    when_not_paused
    require_auth env user
    position ← load (λ s. get user s.stakes) no_active_stake
    fail_if (not (is_period_elapsed env.timestamp position.unlock_time)) stake_not_unlocked
    claimable_time ← ok_or (checked_add_u64 env.timestamp unbonding_period_seconds) overflow
    start_unbonding env user position.amount claimable_time
    publish (unstake_initiated user position.amount claimable_time)

-- The start of a stake that has been topped up: its weight in time is spread over the new amount.
unfoldable pub effective_start : ℕ → StakePosition → ℤ → ℕ
effective_start now position new_amount =
    let weighted_duration =
      if ltb_ℤ (pos 0) new_amount
      then saturating_mul_u128 (as_u128 position.amount) (now - position.start_time)
        / as_u128 new_amount
        % 2 ^ 64
      else 0 in
    now - weighted_duration

module _ {W : Type 0} where
  -- The position of a stake that has been topped up is stored, and the total raised.
  unfoldable pub grow_stake : Env → Address → ℤ → StakePosition → Op W
  grow_stake env user amount position = do
    new_amount ← ok_or (checked_add position.amount amount) overflow
    voting_power ← ok_or (checked_mul new_amount (pos (multiplier position.period))) overflow
    put_stake user (record position {
      amount = new_amount;
      start_time = effective_start env.timestamp position new_amount;
      voting_power = voting_power;
    })
    raise_total amount
    publish (stake_topped_up user amount new_amount position.unlock_time voting_power)

module _ {W : Type 0} (t : TokenLedger W) where
  unfoldable pub stake : Env → Address → ℤ → ℕ → Op W
  stake env user amount period_months = do
    when_not_paused
    guarded reentrant_call (do
      require_auth env user
      fail_if (ltb_ℤ amount min_stake_amount) invalid_amount
      period ← ok_or (from_u32 period_months) invalid_period
      require_no_stake user
      token ← load (λ s. s.token) not_initialized
      client_transfer t token user env.current_contract amount
      open_position env user amount period
      publish (
          staked user amount period_months (multiplier period) (amount *ℤ pos (multiplier period))))

  unfoldable pub claim : Env → Address → Op W
  claim env user = do
    when_not_paused
    guarded reentrant_call (do
      require_auth env user
      position ← load (λ s. get user s.unbonding) no_unbonding_position
      fail_if (not (is_period_elapsed env.timestamp position.claimable_time)) unbonding_not_complete
      token ← load (λ s. s.token) not_initialized
      contract_balance ← gets (λ s. t.balance token env.current_contract s.tokens)
      fail_if (ltb_ℤ contract_balance position.amount) insufficient_contract_balance
      client_transfer t token env.current_contract user position.amount
      modify (λ s. record s { unbonding = remove user s.unbonding })
      publish (claimed user position.amount))

  unfoldable pub top_up : Env → Address → ℤ → Op W
  top_up env user amount = do
    when_not_paused
    guarded reentrant_call (do
      require_auth env user
      fail_if (leb_ℤ amount (pos 0)) invalid_amount
      position ← load (λ s. get user s.stakes) no_active_stake
      fail_if (ltb position.unlock_time env.timestamp) stake_not_unlocked
      token ← load (λ s. s.token) not_initialized
      client_transfer t token user env.current_contract amount
      grow_stake env user amount position)
