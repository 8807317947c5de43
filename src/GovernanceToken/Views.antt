-- ===== src/GovernanceToken/Views.antt =====
-- The read-only functions and the guards of packages/governance-token/src/contract.rs.
use Prim.Native.String.{String}
use moistello_contracts.Prelude.{
  ℕ, ℤ, pos, Bool, true, false, none, some, [], ◌&&◌, ◌||◌, not, ◌==◌, leb, ltb, ltb_ℤ,
  if◌then◌else◌, checked_sub,
}
use moistello_contracts.Soroban.Contract.{
  Address, Env, M, ◌>>=◌, ◌>>◌, load, ok_or, fail_if, gets, map_err, unwrap_or, modify,
}
use moistello_contracts.Soroban.Map.{Map, get, set, get_or, address_key, pair_key}
use moistello_contracts.Common.Pause
use moistello_contracts.Common.Pause.{PauseError}
use moistello_contracts.GovernanceToken.Types.{
  AllowanceData, TokenError, not_initialized, unauthorized, allowance_expired, allowance_exceeded,
  contract_paused, underflow, frozen, recipient_not_allowlisted, TokenMetadata, Store, token_pause,
}

abbrev pub balances_of : Store → Map Address ℤ
balances_of s = unwrap_or [] s.balances

abbrev pub balance : Store → Address → ℤ
balance s account = get_or (pos 0) account (balances_of s)

abbrev pub total_supply : Store → ℤ
total_supply s = unwrap_or (pos 0) s.total

abbrev pub no_allowance : AllowanceData
no_allowance = record { amount = pos 0; expiration_ledger = 0 }

abbrev pub allowance_data : Store → Address → Address → AllowanceData
allowance_data s owner spender = get_or no_allowance (owner, spender) (unwrap_or [] s.allowances)

unfoldable pub is_expired : Env → AllowanceData → Bool
is_expired env allowance =
    not (allowance.expiration_ledger == 0) && ltb allowance.expiration_ledger env.sequence

unfoldable pub is_expiration_valid : Env → ℕ → Bool
is_expiration_valid env expiration_ledger =
    expiration_ledger == 0 || leb env.sequence expiration_ledger

unfoldable pub allowance : Env → Store → Address → Address → ℤ
allowance env s owner spender =
    let found = allowance_data s owner spender in
    if is_expired env found then pos 0 else found.amount

abbrev pub is_initialized : Store → Bool
is_initialized s = elim s.admin [ none ↦ false | some a ↦ true ]

-- `name`, `symbol` and `decimals`: the metadata of an initialized token, and the default before.
-- The host traps on initialized metadata that is missing, which `initialize` rules out.
abbrev pub metadata_or {ℓ} : {A : Type ℓ} → A → (TokenMetadata → A) → Store → A
metadata_or d f s =
    if is_initialized s then elim s.metadata [ none ↦ d | some found ↦ f found ] else d

abbrev pub name : Store → String
name = metadata_or "" (λ m. m.name)

abbrev pub symbol : Store → String
symbol = metadata_or "" (λ m. m.symbol)

abbrev pub decimals : Store → ℕ
decimals = metadata_or 0 (λ m. m.decimal)

abbrev pub is_frozen : Store → Address → Bool
is_frozen s account = get_or false account (unwrap_or [] s.frozen_accounts)

abbrev pub is_allowlist_mode_enabled : Store → Bool
is_allowlist_mode_enabled s = unwrap_or false s.allowlist_mode

abbrev pub is_allowlisted : Store → Address → Bool
is_allowlisted s account = get_or false account (unwrap_or [] s.allowlist)

abbrev pub get_admin : M Store TokenError Address
get_admin = load (λ s. s.admin) not_initialized

-- `pause::when_not_paused(env).map_err(|_| TokenError::ContractPaused)?`
abbrev pub when_not_paused : M Store TokenError (Unit {0})
when_not_paused = map_err (λ _. contract_paused) Pause.when_not_paused

abbrev pub require_admin : Address → M Store TokenError (Unit {0})
require_admin caller = do
  stored ← load (λ s. s.admin) not_initialized
  fail_if (not (caller == stored)) unauthorized

abbrev pub validate_non_frozen : Address → M Store TokenError (Unit {0})
validate_non_frozen account = do is_held ← gets (λ s. is_frozen s account); fail_if is_held frozen

abbrev pub validate_allowlisted : Address → M Store TokenError (Unit {0})
validate_allowlisted to = do
  refused ← gets (λ s. is_allowlist_mode_enabled s && not (is_allowlisted s to))
  fail_if refused recipient_not_allowlisted

unfoldable pub consume_allowance : Env → Address → Address → ℤ → M Store TokenError (Unit {0})
consume_allowance env from spender amount = do
  allowances ← load (λ s. s.allowances) not_initialized
  found ← ok_or (get (from, spender) allowances) unauthorized
  fail_if (is_expired env found) allowance_expired
  fail_if (ltb_ℤ found.amount amount) allowance_exceeded
  new_allowance ← ok_or (checked_sub found.amount amount) underflow
  modify (λ s. record s {
    allowances = some (set (from, spender) (record found { amount = new_allowance }) allowances);
  })
