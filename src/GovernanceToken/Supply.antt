-- ===== src/GovernanceToken/Supply.antt =====
-- `initialize`, `mint` and the burning functions of packages/governance-token/src/contract.rs.
use Prim.Native.String.{String}
use moistello_contracts.Prelude.{ℕ, ℤ, pos, some, [], ◌==◌, leb_ℤ, ltb_ℤ, checked_add, checked_sub}
use moistello_contracts.Soroban.Contract.{
  Address, Env, M, ◌>>=◌, ◌>>◌, load, ok_or, fail_if, gets, modify, require_auth,
}
use moistello_contracts.Soroban.Map.{set, get_or, address_key, pair_key}
use moistello_contracts.GovernanceToken.Types.{
  TokenError, not_initialized, insufficient_balance, invalid_amount, overflow, underflow,
  cannot_transfer_to_self, TokenEvent, Store, publish,
}
use moistello_contracts.GovernanceToken.Views.{
  when_not_paused, require_admin, validate_non_frozen, consume_allowance, total_supply,
  is_initialized,
}

unfoldable pub initialize : Address → String → String → ℕ → M Store TokenError (Unit {0})
initialize admin name symbol decimals = do
  again ← gets is_initialized
  fail_if again not_initialized
  modify (λ s. record s {
    admin = some admin;
    metadata = some (record { decimal = decimals; name = name; symbol = symbol });
    total = some (pos 0);
    balances = some [];
    allowances = some [];
    frozen_accounts = some [];
  })

-- The part of `mint` that updates the balance and the supply.
unfoldable pub mint_balance : Address → ℤ → M Store TokenError (Unit {0})
mint_balance to amount = do
  balances ← load (λ s. s.balances) not_initialized
  credited ← ok_or (checked_add (get_or (pos 0) to balances) amount) overflow
  modify (λ s. record s { balances = some (set to credited balances) })
  total ← gets total_supply
  new_total ← ok_or (checked_add total amount) overflow
  modify (λ s. record s { total = some new_total })

unfoldable pub mint : Env → Address → Address → ℤ → M Store TokenError (Unit {0})
mint env admin to amount = do
  when_not_paused
  require_auth env admin
  require_admin admin
  fail_if (to == env.current_contract) cannot_transfer_to_self
  validate_non_frozen to
  fail_if (leb_ℤ amount (pos 0)) invalid_amount
  mint_balance to amount
  publish (TokenEvent.mint_with_amount_only to amount)

-- Also the part of `burn` that updates the balance and the supply, which the source spells out.
unfoldable pub burn_balance : Address → ℤ → M Store TokenError (Unit {0})
burn_balance from amount = do
  balances ← load (λ s. s.balances) not_initialized
  let current = get_or (pos 0) from balances
  fail_if (ltb_ℤ current amount) insufficient_balance
  left ← ok_or (checked_sub current amount) underflow
  modify (λ s. record s { balances = some (set from left balances) })
  total ← gets total_supply
  new_total ← ok_or (checked_sub total amount) underflow
  modify (λ s. record s { total = some new_total })

unfoldable pub burn : Env → Address → ℤ → M Store TokenError (Unit {0})
burn env from amount = do
  when_not_paused
  require_auth env from
  validate_non_frozen from
  fail_if (leb_ℤ amount (pos 0)) invalid_amount
  burn_balance from amount
  publish (TokenEvent.burn from amount)

unfoldable pub burn_from : Env → Address → Address → ℤ → M Store TokenError (Unit {0})
burn_from env spender from amount = do
  when_not_paused
  require_auth env spender
  fail_if (leb_ℤ amount (pos 0)) invalid_amount
  validate_non_frozen from
  consume_allowance env from spender amount
  burn_balance from amount
  publish (TokenEvent.burn from amount)

unfoldable pub admin_burn_from : Env → Address → Address → ℤ → M Store TokenError (Unit {0})
admin_burn_from env admin from amount = do
  when_not_paused
  require_auth env admin
  require_admin admin
  validate_non_frozen from
  fail_if (leb_ℤ amount (pos 0)) invalid_amount
  burn_balance from amount
  publish (TokenEvent.burn from amount)

-- A frozen account is not spared.
unfoldable pub clawback : Env → Address → Address → ℤ → M Store TokenError (Unit {0})
clawback env admin from amount = do
  when_not_paused
  require_auth env admin
  require_admin admin
  fail_if (leb_ℤ amount (pos 0)) invalid_amount
  burn_balance from amount
  publish (TokenEvent.clawback from amount)
