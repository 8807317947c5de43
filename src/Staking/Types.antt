-- ===== src/Staking/Types.antt =====
-- packages/staking/src/types.rs: the data of the staking contract, and its storage.
use moistello_contracts.Prelude.{
  ℕ, ℤ, pos, ◌*◌, refl, Bool, ◌==◌, if◌then◌else◌, Option, none, some, List, push_back,
}
use moistello_contracts.Soroban.Contract.{Address, M, modify}
use moistello_contracts.Soroban.Map.{Map}
use moistello_contracts.Common.Pause.{PauseStore}
use moistello_contracts.Common.Reentrancy.{LockStore}
use moistello_contracts.Common.TokenTransfer.{HasLedger}

pub data StakingPeriod : Type 0 where
  one_month three_months six_months twelve_months : StakingPeriod

unfoldable pub multiplier : StakingPeriod → ℕ
multiplier one_month = 1
multiplier three_months = 2
multiplier six_months = 3
multiplier twelve_months = 5

unfoldable pub as_seconds : StakingPeriod → ℕ
as_seconds one_month = 30 * 24 * 60 * 60
as_seconds three_months = 90 * 24 * 60 * 60
as_seconds six_months = 180 * 24 * 60 * 60
as_seconds twelve_months = 360 * 24 * 60 * 60

unfoldable pub from_u32 : ℕ → Option StakingPeriod
from_u32 value =
    if value == 1
    then some one_month
    else if value == 3
    then some three_months
    else if value == 6
    then some six_months
    else if value == 12
    then some twelve_months
    else none

abbrev pub unbonding_period_seconds : ℕ
unbonding_period_seconds = 14 * 24 * 60 * 60

abbrev pub min_stake_amount : ℤ
min_stake_amount = pos 10000000

pub record StakePosition : Type 0 where
  pub amount : ℤ
  pub period : StakingPeriod
  pub start_time : ℕ
  pub unlock_time : ℕ
  pub voting_power : ℤ
  pub start_ledger : ℕ
  pub unlock_ledger : ℕ

pub record UnbondingPosition : Type 0 where
  pub amount : ℤ
  pub unbonding_start_time : ℕ
  pub claimable_time : ℕ

-- The entry `SlashNotice`: the amount, the end of the notice, and the executor.
pub record SlashNotice : Type 0 where
  pub amount : ℤ
  pub notice_until : ℕ
  pub executor : Address

pub data StakingError : Type 0 where
  not_initialized unauthorized contract_paused invalid_amount invalid_period token_error
        insufficient_balance no_active_stake stake_not_unlocked unbonding_not_complete
        no_unbonding_position already_staked overflow insufficient_contract_balance
        slash_notice_period_active no_active_slash_notice slash_not_authorized slash_notice_expired
        reentrant_call staker_index_out_of_range :
      StakingError

pub data StakingEvent : Type 0 where
  staked : Address → ℤ → ℕ → ℕ → ℤ → StakingEvent
  unstake_initiated : Address → ℤ → ℕ → StakingEvent
  claimed : Address → ℤ → StakingEvent
  voting_power_queried : Address → ℤ → StakingEvent
  stake_topped_up : Address → ℤ → ℤ → ℕ → ℤ → StakingEvent
  slash_notice_created : Address → Address → ℤ → ℕ → StakingEvent
  slash_cancelled slash_executed : Address → Address → ℤ → StakingEvent
  slashed : Address → ℤ → ℤ → StakingEvent
  paused unpaused : Address → StakingEvent

-- The entries of the storage, and the token ledger W, which lies outside of the contract.
pub record Store (W : Type 0) : Type 0 where
  pub admin : Option Address
  pub token : Option Address
  pub stakes : Map Address StakePosition
  pub unbonding : Map Address UnbondingPosition
  pub total_staked : Option ℤ
  pub staker_list : Option (List Address)
  pub slash_notices : Map Address SlashNotice
  pub slash_notice_period : Option ℕ
  pub paused_flag : Option Bool
  pub lock : Option Bool
  pub events : List StakingEvent
  pub tokens : W

abbrev pub Op : Type 0 → Type 0
Op W = M (Store W) StakingError (Unit {0})

module _ {W : Type 0} where
  abbrev pub with_event : StakingEvent → Store W → Store W
  with_event e s = record s { events = push_back s.events e }

  -- `Event { .. }.publish(env)`
  abbrev pub publish : StakingEvent → Op W
  publish e = modify (with_event e)

  instance abbrev pub staking_pause : PauseStore (Store W)
  staking_pause = record {
    paused = λ s. s.paused_flag;
    set_paused = λ b s. record s { paused_flag = some b };
    publish_paused = λ a. with_event (paused a);
    publish_unpaused = λ a. with_event (unpaused a);
    paused-set = λ b s. refl;
    paused-publish = λ a s. refl;
    unpaused-publish = λ a s. refl;
  }

  instance abbrev pub staking_lock : LockStore (Store W)
  staking_lock = record {
    locked = λ s. s.lock;
    set_locked = λ b s. record s { lock = some b };
    locked-set = λ b s. refl;
  }

  instance abbrev pub staking_ledger : HasLedger W (Store W)
  staking_ledger = record { ledger = λ s. s.tokens; set_ledger = λ w s. record s { tokens = w } }
