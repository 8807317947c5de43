-- ===== src/GovernanceToken/Admin.antt =====
-- The administrative functions of packages/governance-token/src/contract.rs.
use moistello_contracts.Prelude.{Bool, true, false, some, []}
use moistello_contracts.Soroban.Contract.{
  Address, Env, M, ◌>>=◌, ◌>>◌, load, gets, modify, map_err, require_auth, unwrap_or,
}
use moistello_contracts.Soroban.Map.{set, address_key}
use moistello_contracts.Common.Pause
use moistello_contracts.GovernanceToken.Types.{
  TokenError, not_initialized, contract_paused, TokenEvent, Store, publish, token_pause,
}
use moistello_contracts.GovernanceToken.Views.{when_not_paused, require_admin}

-- The part of `freeze` and `unfreeze` that writes the registry.
unfoldable pub write_frozen : Address → Bool → M Store TokenError (Unit {0})
write_frozen account value = do
  frozen_accounts ← load (λ s. s.frozen_accounts) not_initialized
  modify (λ s. record s { frozen_accounts = some (set account value frozen_accounts) })

abbrev set_frozen : Env → Address → Address → Bool → TokenEvent → M Store TokenError (Unit {0})
set_frozen env admin account value event = do
  when_not_paused
  require_auth env admin
  require_admin admin
  write_frozen account value
  publish event

unfoldable pub freeze : Env → Address → Address → M Store TokenError (Unit {0})
freeze env admin account = set_frozen env admin account true (TokenEvent.account_frozen account)

unfoldable pub unfreeze : Env → Address → Address → M Store TokenError (Unit {0})
unfreeze env admin account =
    set_frozen env admin account false (TokenEvent.account_unfrozen account)

unfoldable pub set_admin : Env → Address → Address → M Store TokenError (Unit {0})
set_admin env admin new_admin = do
  when_not_paused
  require_auth env admin
  require_admin admin
  modify (λ s. record s { admin = some new_admin })
  publish (TokenEvent.admin_changed admin new_admin)

unfoldable pub pause : Env → Address → M Store TokenError (Unit {0})
pause env admin = do require_admin admin; map_err (λ _. contract_paused) (Pause.pause env admin)

unfoldable pub unpause : Env → Address → M Store TokenError (Unit {0})
unpause env admin = do require_admin admin; map_err (λ _. contract_paused) (Pause.unpause env admin)

unfoldable pub set_allowlist_mode : Env → Address → Bool → M Store TokenError (Unit {0})
set_allowlist_mode env admin enabled = do
  when_not_paused
  require_auth env admin
  require_admin admin
  modify (λ s. record s { allowlist_mode = some enabled })
  publish (TokenEvent.allowlist_mode_changed enabled)

abbrev set_listed : Env → Address → Address → Bool → TokenEvent → M Store TokenError (Unit {0})
set_listed env admin account value event = do
  when_not_paused
  require_auth env admin
  require_admin admin
  listed ← gets (λ s. unwrap_or [] s.allowlist)
  modify (λ s. record s { allowlist = some (set account value listed) })
  publish event

unfoldable pub add_to_allowlist : Env → Address → Address → M Store TokenError (Unit {0})
add_to_allowlist env admin account =
    set_listed env admin account true (TokenEvent.allowlist_added account)

unfoldable pub remove_from_allowlist : Env → Address → Address → M Store TokenError (Unit {0})
remove_from_allowlist env admin account =
    set_listed env admin account false (TokenEvent.allowlist_removed account)
