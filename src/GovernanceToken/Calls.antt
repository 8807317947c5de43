-- ===== src/GovernanceToken/Calls.antt =====
-- packages/governance-token/src/lib.rs: the entry points of the contract that change its storage,
-- and a history of invocations. An invocation that fails leaves the storage as it was.
use Prim.Native.String.{String}
use moistello_contracts.Prelude.{ℕ, ℤ, Bool, none, List, [], ◌∷◌}
use moistello_contracts.Soroban.Contract.{Address, Env, M}
use moistello_contracts.Soroban.Outcome.{commit}
use moistello_contracts.GovernanceToken.Types.{MuxedAddress, Store, TokenError}
use moistello_contracts.GovernanceToken.Transfers
use moistello_contracts.GovernanceToken.Supply
use moistello_contracts.GovernanceToken.Admin

pub data Call : Type 0 where
  initialize : Address → String → String → ℕ → Call
  transfer : Address → MuxedAddress → ℤ → Call
  transfer_from : Address → Address → Address → ℤ → Call
  approve : Address → Address → ℤ → ℕ → Call
  mint : Address → Address → ℤ → Call
  burn : Address → ℤ → Call
  burn_from admin_burn_from clawback : Address → Address → ℤ → Call
  freeze unfreeze set_admin : Address → Address → Call
  pause unpause : Address → Call
  set_allowlist_mode : Address → Bool → Call
  add_to_allowlist remove_from_allowlist : Address → Address → Call

abbrev pub apply : Env → Call → M Store TokenError (Unit {0})
apply env (initialize admin name symbol decimals) = Supply.initialize admin name symbol decimals
apply env (transfer from to amount) = Transfers.transfer env from to amount
apply env (transfer_from spender from to amount) =
    Transfers.transfer_from env spender from to amount
apply env (approve owner spender amount expiration) =
    Transfers.approve env owner spender amount expiration
apply env (mint admin to amount) = Supply.mint env admin to amount
apply env (burn from amount) = Supply.burn env from amount
apply env (burn_from spender from amount) = Supply.burn_from env spender from amount
apply env (admin_burn_from admin from amount) = Supply.admin_burn_from env admin from amount
apply env (clawback admin from amount) = Supply.clawback env admin from amount
apply env (freeze admin account) = Admin.freeze env admin account
apply env (unfreeze admin account) = Admin.unfreeze env admin account
apply env (set_admin admin new_admin) = Admin.set_admin env admin new_admin
apply env (pause admin) = Admin.pause env admin
apply env (unpause admin) = Admin.unpause env admin
apply env (set_allowlist_mode admin enabled) = Admin.set_allowlist_mode env admin enabled
apply env (add_to_allowlist admin account) = Admin.add_to_allowlist env admin account
apply env (remove_from_allowlist admin account) = Admin.remove_from_allowlist env admin account

unfoldable pub step : Env → Call → Store → Store
step env c s = commit s (apply env c s)

unfoldable pub run : List (Env × Call) → Store → Store
run [] s = s
run ((env, c) ∷ cs) s = run cs (step env c s)

-- The storage of a contract that has just been deployed.
abbrev pub fresh : Store
fresh = record {
  admin = none;
  metadata = none;
  total = none;
  balances = none;
  allowances = none;
  frozen_accounts = none;
  allowlist_mode = none;
  allowlist = none;
  paused_flag = none;
  events = [];
}
