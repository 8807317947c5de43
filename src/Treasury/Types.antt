-- ===== src/Treasury/Types.antt =====
-- packages/treasury/src/types.rs: the data of the treasury, and its storage.
use moistello_contracts.Prelude.{ℕ, ℤ, refl, Bool, Option, some, List, push_back}
use moistello_contracts.Soroban.Contract.{Address, M, modify}
use moistello_contracts.Common.Pause.{PauseStore}
use moistello_contracts.Common.Reentrancy.{LockStore}
use moistello_contracts.Common.TokenTransfer.{HasLedger}

pub record Deposit : Type 0 where
  pub from : Address
  pub amount : ℤ
  pub circle_id : Address
  pub timestamp : ℕ

pub record Withdrawal : Type 0 where
  pub admin : Address
  pub to : Address
  pub amount : ℤ
  pub timestamp : ℕ

pub data TreasuryError : Type 0 where
  not_initialized unauthorized contract_paused insufficient_balance invalid_amount
        already_initialized contract_not_paused :
      TreasuryError

pub data TreasuryEvent : Type 0 where
  fee_deposited : Address → ℤ → Address → TreasuryEvent
  funds_withdrawn : Address → ℤ → TreasuryEvent
  tokens_rescued : Address → Address → ℤ → TreasuryEvent
  paused unpaused : Address → TreasuryEvent

-- The entries of the storage, and the token ledger W, which lies outside of the contract.
pub record Store (W : Type 0) : Type 0 where
  pub admin : Option Address
  pub token : Option Address
  pub balance : Option ℤ
  pub deposits : Option (List Deposit)
  pub withdrawals : Option (List Withdrawal)
  pub paused_flag : Option Bool
  pub lock : Option Bool
  pub events : List TreasuryEvent
  pub tokens : W

abbrev pub Op : Type 0 → Type 0
Op W = M (Store W) TreasuryError (Unit {0})

module _ {W : Type 0} where
  abbrev pub with_event : TreasuryEvent → Store W → Store W
  with_event e s = record s { events = push_back s.events e }

  abbrev pub publish : TreasuryEvent → Op W
  publish e = modify (with_event e)

  instance abbrev pub treasury_pause : PauseStore (Store W)
  treasury_pause = record {
    paused = λ s. s.paused_flag;
    set_paused = λ b s. record s { paused_flag = some b };
    publish_paused = λ a. with_event (paused a);
    publish_unpaused = λ a. with_event (unpaused a);
    paused-set = λ b s. refl;
    paused-publish = λ a s. refl;
    unpaused-publish = λ a s. refl;
  }

  instance abbrev pub treasury_lock : LockStore (Store W)
  treasury_lock = record {
    locked = λ s. s.lock;
    set_locked = λ b s. record s { lock = some b };
    locked-set = λ b s. refl;
  }

  instance abbrev pub treasury_ledger : HasLedger W (Store W)
  treasury_ledger = record { ledger = λ s. s.tokens; set_ledger = λ w s. record s { tokens = w } }
