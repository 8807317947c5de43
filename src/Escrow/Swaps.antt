-- ===== src/Escrow/Swaps.antt =====
-- packages/escrow-swap/src/contract.rs.
use moistello_contracts.Prelude.{
  ℕ, ℤ, pos, Bool, not, ◌||◌, ◌==◌, leb, leb_ℤ, if◌then◌else◌, Option, none, some, List, [], ◌∷◌,
  push_back, checked_add_u64,
}
use moistello_contracts.Soroban.Result.{Result, result_ok_or}
use moistello_contracts.Soroban.Result
use moistello_contracts.Soroban.Contract.{
  is_some, Address, Env, M, ◌>>=◌, ◌>>◌, pure, load, gets, modify, fail_if, ok_or, map_err, only_if,
  require_auth, unwrap_or,
}
use moistello_contracts.Common.Pause
use moistello_contracts.Common.Reentrancy.{guarded}
use moistello_contracts.Common.TokenTransfer.{TokenLedger, TokenTransferError, safe_transfer}
use moistello_contracts.Common.TokenTransfer
use moistello_contracts.Escrow.Types.{
  SwapRequest, status_pending, status_active, status_completed, status_cancelled, EscrowError,
  not_initialized, unauthorized, contract_paused, invalid_amount, swap_not_found, swap_not_active,
  already_accepted, hash_lock_mismatch, time_lock_expired, insufficient_balance, invalid_swap,
  already_initialized, invalid_admin, swap_created, swap_accepted, swap_completed, swap_cancelled,
  Store, Op, publish, escrow_pause, escrow_lock, escrow_ledger,
}

unfoldable pub map_transfer_error : TokenTransferError → EscrowError
map_transfer_error TokenTransfer.insufficient_balance = insufficient_balance
map_transfer_error TokenTransfer.unauthorized = unauthorized
map_transfer_error TokenTransfer.transfer_failed = invalid_amount

-- The loops stop at the first swap with the id, and write it back with a new status.
abbrev pub find_swap : ℕ → List SwapRequest → Option SwapRequest
find_swap id [] = none
find_swap id (s ∷ swaps) = if s.id == id then some s else find_swap id swaps

abbrev pub set_status : ℕ → ℕ → List SwapRequest → List SwapRequest
set_status id status [] = []
set_status id status (s ∷ swaps) =
    let rest = set_status id status swaps in
    if s.id == id then record s { status = status } ∷ swaps else s ∷ rest

module _ {W : Type 0} where
  unfoldable pub when_not_paused : Op W
  when_not_paused = map_err (λ _. contract_paused) Pause.when_not_paused

  unfoldable pub init : Env → Address → Op W
  init env admin = do
    require_auth env admin
    stored ← gets (λ s. is_some s.admin)
    fail_if stored already_initialized
    fail_if (admin == env.current_contract) invalid_admin
    modify (λ s. record s { admin = some admin; next_swap_id = some 0; swap_requests = some [] })

  abbrev pub swaps_of : Store W → List SwapRequest
  swaps_of s = unwrap_or [] s.swap_requests

  unfoldable pub get_swap : Store W → ℕ → Result EscrowError SwapRequest
  get_swap s id =
      Result.◌>>=◌ (result_ok_or s.swap_requests not_initialized)
        (λ swaps. result_ok_or (find_swap id swaps) swap_not_found)

  unfoldable pub get_swaps : Store W → List SwapRequest
  get_swaps s = swaps_of s

  unfoldable pub check_admin : Address → Op W
  check_admin admin = do
    stored ← load (λ s. s.admin) not_initialized
    fail_if (not (admin == stored)) unauthorized

  unfoldable pub pause : Env → Address → Op W
  pause env admin = do check_admin admin; map_err (λ _. contract_paused) (Pause.pause env admin)

  unfoldable pub unpause : Env → Address → Op W
  unpause env admin = do check_admin admin; map_err (λ _. contract_paused) (Pause.unpause env admin)

  -- The new swap is stored, and the next id.
  unfoldable pub store_swap : SwapRequest → Op W
  store_swap swap = do
    modify (λ s. record s { swap_requests = some (push_back (swaps_of s) swap) })
    next ← ok_or (checked_add_u64 swap.id 1) invalid_amount
    modify (λ s. record s { next_swap_id = some next })

  -- `env.storage().persistent().set(&DataKey::SwapRequests, &swaps)` after the loop
  abbrev pub write_status : ℕ → ℕ → List SwapRequest → Op W
  write_status id status swaps =
      modify (λ s. record s { swap_requests = some (set_status id status swaps) })

module _ (sha256 : ℕ → ℕ) where
  -- The tests on a swap that is accepted.
  unfoldable pub check_accept : {W : Type 0} → Env → SwapRequest → Address → ℕ → Op W
  check_accept env swap responder secret = do
    fail_if (swap.status == status_active) already_accepted
    fail_if (not (swap.status == status_pending)) swap_not_active
    fail_if (not (swap.responder == responder)) unauthorized
    fail_if (not (sha256 secret == swap.hash_lock)) hash_lock_mismatch
    fail_if (leb swap.time_lock env.timestamp) time_lock_expired

abbrev pub is_party : SwapRequest → Address → Bool
is_party swap caller = caller == swap.initiator || caller == swap.responder

module _ {W : Type 0} (t : TokenLedger W) where
  -- `safe_transfer(..).map_err(map_transfer_error)?`
  abbrev pub move_tokens : Address → Address → Address → ℤ → Op W
  move_tokens token from to amount =
      map_err map_transfer_error (safe_transfer t token from to amount)

  unfoldable pub create_swap :
      Env → Address → Address → Address → Address → ℤ → ℤ → ℕ → ℕ → M (Store W) EscrowError ℕ
  create_swap env initiator responder token_a token_b initiator_amount responder_amount hash_lock
        time_lock =
      when_not_paused
      >> guarded not_initialized (do
        require_auth env initiator
        fail_if (initiator == responder) invalid_swap
        fail_if (leb_ℤ initiator_amount (pos 0) || leb_ℤ responder_amount (pos 0)) invalid_amount
        fail_if (leb time_lock env.timestamp) time_lock_expired
        next_id ← gets (λ s. unwrap_or 0 s.next_swap_id)
        store_swap (record {
          id = next_id;
          initiator = initiator;
          responder = responder;
          token_a = token_a;
          token_b = token_b;
          initiator_amount = initiator_amount;
          responder_amount = responder_amount;
          hash_lock = hash_lock;
          time_lock = time_lock;
          status = status_pending;
          created_at = env.timestamp;
        })
        move_tokens token_a initiator env.current_contract initiator_amount
        publish (
            swap_created next_id initiator responder token_a token_b initiator_amount
              responder_amount)
        pure next_id)

  unfoldable pub accept_swap : (ℕ → ℕ) → Env → ℕ → Address → ℕ → Op W
  accept_swap sha256 env id responder secret = do
    when_not_paused
    guarded not_initialized (do
      require_auth env responder
      swaps ← load (λ s. s.swap_requests) not_initialized
      swap ← ok_or (find_swap id swaps) swap_not_found
      check_accept sha256 env swap responder secret
      move_tokens swap.token_b responder env.current_contract swap.responder_amount
      publish (swap_accepted id responder)
      write_status id status_active swaps)

  unfoldable pub complete_swap : Env → ℕ → Address → Op W
  complete_swap env id caller = do
    when_not_paused
    guarded not_initialized (do
      require_auth env caller
      swaps ← load (λ s. s.swap_requests) not_initialized
      swap ← ok_or (find_swap id swaps) swap_not_found
      fail_if (not (swap.status == status_active)) swap_not_active
      fail_if (not (is_party swap caller)) unauthorized
      move_tokens swap.token_a env.current_contract swap.responder swap.initiator_amount
      move_tokens swap.token_b env.current_contract swap.initiator swap.responder_amount
      publish (swap_completed id swap.initiator swap.responder)
      write_status id status_completed swaps)

  unfoldable pub cancel_swap : Env → ℕ → Address → Op W
  cancel_swap env id caller = do
    when_not_paused
    guarded not_initialized (do
      require_auth env caller
      swaps ← load (λ s. s.swap_requests) not_initialized
      swap ← ok_or (find_swap id swaps) swap_not_found
      fail_if (swap.status == status_completed || swap.status == status_cancelled) swap_not_active
      fail_if (not (is_party swap caller)) unauthorized
      move_tokens swap.token_a env.current_contract swap.initiator swap.initiator_amount
      only_if (swap.status == status_active)
          (move_tokens swap.token_b env.current_contract swap.responder swap.responder_amount)
      publish (swap_cancelled id)
      write_status id status_cancelled swaps)
