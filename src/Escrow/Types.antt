-- ===== src/Escrow/Types.antt =====
-- packages/escrow-swap/src/types.rs: the data of the swap contract, and its storage. The 32 bytes of
-- a hash or a secret are one number.
use moistello_contracts.Prelude.{ℕ, ℤ, refl, Bool, Option, some, List, push_back}
use moistello_contracts.Soroban.Contract.{Address, M, modify}
use moistello_contracts.Common.Pause.{PauseStore}
use moistello_contracts.Common.Reentrancy.{LockStore}
use moistello_contracts.Common.TokenTransfer.{HasLedger}

pub record SwapRequest : Type 0 where
  pub id : ℕ
  pub initiator : Address
  pub responder : Address
  pub token_a : Address
  pub token_b : Address
  pub initiator_amount : ℤ
  pub responder_amount : ℤ
  pub hash_lock : ℕ
  pub time_lock : ℕ
  pub status : ℕ
  pub created_at : ℕ

abbrev pub status_pending : ℕ
status_pending = 0

abbrev pub status_active : ℕ
status_active = 1

abbrev pub status_completed : ℕ
status_completed = 2

abbrev pub status_cancelled : ℕ
status_cancelled = 3

pub data EscrowError : Type 0 where
  not_initialized unauthorized contract_paused invalid_amount swap_not_found swap_not_active
        already_accepted hash_lock_mismatch time_lock_expired insufficient_balance invalid_swap
        vec_access_error already_initialized invalid_admin :
      EscrowError

pub data EscrowEvent : Type 0 where
  swap_created : ℕ → Address → Address → Address → Address → ℤ → ℤ → EscrowEvent
  swap_accepted : ℕ → Address → EscrowEvent
  swap_completed : ℕ → Address → Address → EscrowEvent
  swap_cancelled : ℕ → EscrowEvent
  paused unpaused : Address → EscrowEvent

-- The entries of the storage, and the token ledger W, which lies outside of the contract.
pub record Store (W : Type 0) : Type 0 where
  pub admin : Option Address
  pub swap_requests : Option (List SwapRequest)
  pub next_swap_id : Option ℕ
  pub paused_flag : Option Bool
  pub lock : Option Bool
  pub events : List EscrowEvent
  pub tokens : W

abbrev pub Op : Type 0 → Type 0
Op W = M (Store W) EscrowError (Unit {0})

module _ {W : Type 0} where
  abbrev pub with_event : EscrowEvent → Store W → Store W
  with_event e s = record s { events = push_back s.events e }

  abbrev pub publish : EscrowEvent → Op W
  publish e = modify (with_event e)

  instance abbrev pub escrow_pause : PauseStore (Store W)
  escrow_pause = record {
    paused = λ s. s.paused_flag;
    set_paused = λ b s. record s { paused_flag = some b };
    publish_paused = λ a. with_event (paused a);
    publish_unpaused = λ a. with_event (unpaused a);
    paused-set = λ b s. refl;
    paused-publish = λ a s. refl;
    unpaused-publish = λ a s. refl;
  }

  instance abbrev pub escrow_lock : LockStore (Store W)
  escrow_lock = record {
    locked = λ s. s.lock;
    set_locked = λ b s. record s { lock = some b };
    locked-set = λ b s. refl;
  }

  instance abbrev pub escrow_ledger : HasLedger W (Store W)
  escrow_ledger = record { ledger = λ s. s.tokens; set_ledger = λ w s. record s { tokens = w } }
