-- ===== src/GovernanceToken/Types.antt =====
-- packages/governance-token/src/types.rs, and the storage that contract.rs keeps.
use Prim.Native.String.{String}
use moistello_contracts.Prelude.{ℕ, ℤ, Bool, Option, List, push_back, refl, some}
use moistello_contracts.Soroban.Contract.{Address, M, modify}
use moistello_contracts.Soroban.Map.{Map}
use moistello_contracts.Common.Pause.{PauseStore}

pub record AllowanceData : Type 0 where
  pub amount : ℤ
  pub expiration_ledger : ℕ

pub data TokenError : Type 0 where
  not_initialized unauthorized insufficient_balance invalid_amount overflow allowance_expired
        allowance_exceeded negative_allowance not_admin contract_paused underflow frozen
        recipient_not_allowlisted invalid_expiration_ledger cannot_transfer_to_self :
      TokenError

-- `soroban_sdk::MuxedAddress`, by its two accessors.
pub record MuxedAddress : Type 0 where
  pub address : Address
  pub id : Option ℕ

-- `soroban_token_sdk`'s metadata, which the token only stores and reads back.
pub record TokenMetadata : Type 0 where
  pub decimal : ℕ
  pub name : String
  pub symbol : String

pub data TokenEvent : Type 0 where
  transfer : Address → Address → ℕ → ℤ → TokenEvent
  transfer_with_amount_only : Address → Address → ℤ → TokenEvent
  approve : Address → Address → ℤ → ℕ → TokenEvent
  mint_with_amount_only : Address → ℤ → TokenEvent
  burn : Address → ℤ → TokenEvent
  clawback : Address → ℤ → TokenEvent
  account_frozen account_unfrozen allowlist_added allowlist_removed : Address → TokenEvent
  allowlist_mode_changed : Bool → TokenEvent
  admin_changed : Address → Address → TokenEvent
  paused unpaused : Address → TokenEvent

-- The entries of the instance and the persistent storage; none is an entry that is not set.
pub record Store : Type 0 where
  pub admin : Option Address
  pub metadata : Option TokenMetadata
  pub total : Option ℤ
  pub balances : Option (Map Address ℤ)
  pub allowances : Option (Map (Address × Address) AllowanceData)
  pub frozen_accounts : Option (Map Address Bool)
  pub allowlist_mode : Option Bool
  pub allowlist : Option (Map Address Bool)
  pub paused_flag : Option Bool
  pub events : List TokenEvent

abbrev pub with_event : TokenEvent → Store → Store
with_event e s = record s { events = push_back s.events e }

-- `event.publish(env)`
abbrev pub publish : TokenEvent → M Store TokenError (Unit {0})
publish e = modify (with_event e)

instance abbrev pub token_pause : PauseStore Store
token_pause = record {
  paused = λ s. s.paused_flag;
  set_paused = λ b s. record s { paused_flag = some b };
  publish_paused = λ a. with_event (paused a);
  publish_unpaused = λ a. with_event (unpaused a);
  paused-set = λ b s. refl;
  paused-publish = λ a s. refl;
  unpaused-publish = λ a s. refl;
}
