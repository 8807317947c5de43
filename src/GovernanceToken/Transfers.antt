-- ===== src/GovernanceToken/Transfers.antt =====
-- `transfer`, `transfer_from` and `approve` of packages/governance-token/src/contract.rs.
use moistello_contracts.Prelude.{
  ℕ, ℤ, pos, none, some, ◌==◌, not, ◌&&◌, leb_ℤ, ltb_ℤ, checked_add, checked_sub,
}
use moistello_contracts.Soroban.Contract.{
  Address, Env, M, ◌>>=◌, ◌>>◌, load, ok_or, fail_if, modify, require_auth,
}
use moistello_contracts.Soroban.Map.{set, get_or, address_key, pair_key}
use moistello_contracts.GovernanceToken.Types.{
  TokenError, not_initialized, insufficient_balance, invalid_amount, overflow, underflow,
  invalid_expiration_ledger, cannot_transfer_to_self, MuxedAddress, TokenEvent, Store, publish,
}
use moistello_contracts.GovernanceToken.Views.{
  when_not_paused, validate_non_frozen, validate_allowlisted, consume_allowance,
  is_expiration_valid,
}

-- The part that `transfer` and `transfer_from` share: the update of the two balances.
unfoldable pub move_balance : Address → Address → ℤ → M Store TokenError (Unit {0})
move_balance from to amount = do
  balances ← load (λ s. s.balances) not_initialized
  let from_balance = get_or (pos 0) from balances
  fail_if (ltb_ℤ from_balance amount) insufficient_balance
  from_left ← ok_or (checked_sub from_balance amount) underflow
  let debited = set from from_left balances
  to_new ← ok_or (checked_add (get_or (pos 0) to debited) amount) overflow
  modify (λ s. record s { balances = some (set to to_new debited) })

abbrev pub transfer_event : Address → MuxedAddress → ℤ → TokenEvent
transfer_event from to amount = elim to.id [
  | some to_muxed_id ↦ TokenEvent.transfer from to.address to_muxed_id amount
  | none ↦ TokenEvent.transfer_with_amount_only from to.address amount
]

abbrev pub publish_transfer : Address → MuxedAddress → ℤ → M Store TokenError (Unit {0})
publish_transfer from to amount = publish (transfer_event from to amount)

unfoldable pub transfer : Env → Address → MuxedAddress → ℤ → M Store TokenError (Unit {0})
transfer env from to amount = do
  when_not_paused
  require_auth env from
  fail_if (to.address == env.current_contract) cannot_transfer_to_self
  validate_non_frozen from
  validate_non_frozen to.address
  validate_allowlisted to.address
  fail_if (leb_ℤ amount (pos 0)) invalid_amount
  move_balance from to.address amount
  publish_transfer from to amount

unfoldable pub transfer_from : Env → Address → Address → Address → ℤ → M Store TokenError (Unit {0})
transfer_from env spender from to amount = do
  when_not_paused
  require_auth env spender
  fail_if (to == env.current_contract) cannot_transfer_to_self
  validate_non_frozen from
  validate_non_frozen to
  validate_allowlisted to
  fail_if (leb_ℤ amount (pos 0)) invalid_amount
  consume_allowance env from spender amount
  move_balance from to amount
  publish (TokenEvent.transfer_with_amount_only from to amount)

-- The part of `approve` that writes the allowance.
unfoldable pub write_allowance : Address → Address → ℤ → ℕ → M Store TokenError (Unit {0})
write_allowance owner spender amount expiration_ledger = do
  allowances ← load (λ s. s.allowances) not_initialized
  modify (λ s. record s {
    allowances = some (
        set (owner, spender) (record { amount = amount; expiration_ledger = expiration_ledger })
          allowances);
  })

unfoldable pub approve : Env → Address → Address → ℤ → ℕ → M Store TokenError (Unit {0})
approve env owner spender amount expiration_ledger = do
  when_not_paused
  require_auth env owner
  fail_if (ltb_ℤ amount (pos 0)) invalid_amount
  fail_if (ltb_ℤ (pos 0) amount && not (is_expiration_valid env expiration_ledger))
      invalid_expiration_ledger
  write_allowance owner spender amount expiration_ledger
  publish (TokenEvent.approve owner spender amount expiration_ledger)
