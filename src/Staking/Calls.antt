-- ===== src/Staking/Calls.antt =====
-- The entry points of packages/staking/src/lib.rs that change the state, `init` among them, and the
-- ledger's view of them.
use moistello_contracts.Prelude.{ℕ, ℤ, pos, ◌≡◌, List, [], ◌∷◌, none, some, false}
use moistello_contracts.Soroban.Contract.{Address, Env, ◌>>=◌, pure}
use moistello_contracts.Soroban.Outcome.{commit}
use moistello_contracts.Common.TokenTransfer.{TokenLedger}
use moistello_contracts.Staking.Types.{Store, Op}
use moistello_contracts.Staking.Positions
use moistello_contracts.Staking.Slashing
use moistello_contracts.Staking.Admin

pub data Call : Type 0 where
  init : Address → Address → Call
  stake : Address → ℤ → ℕ → Call
  unstake claim : Address → Call
  top_up : Address → ℤ → Call
  get_voting_power : Address → Call
  pause unpause : Address → Call
  update_admin : Address → Address → Call
  slash : Address → Address → ℤ → Call
  set_slash_notice_period : Address → ℕ → Call
  create_slash_notice : Address → Address → ℤ → Call
  cancel_slash execute_slash : Address → Address → Call

-- The call does not initialize the contract.
abbrev pub IsNoInit : Env × Call → Type 0
IsNoInit (env, init admin token) = ⊥
IsNoInit (env, c) = Unit

-- The call does not initialize the contract with another token than this one.
abbrev pub IsOfToken : Address → Env × Call → Type 0
IsOfToken token (env, init admin named) = named ≡ token
IsOfToken token (env, c) = Unit

module _ {W : Type 0} (t : TokenLedger W) where
  unfoldable pub apply : Env → Call → Op W
  apply env (init admin token) = Positions.init env admin token
  apply env (stake user amount period_months) = Positions.stake t env user amount period_months
  apply env (unstake user) = Positions.unstake env user
  apply env (claim user) = Positions.claim t env user
  apply env (top_up user amount) = Positions.top_up t env user amount
  apply env (get_voting_power user) = Admin.get_voting_power user >>= λ _. pure tt
  apply env (pause admin) = Admin.pause env admin
  apply env (unpause admin) = Admin.unpause env admin
  apply env (update_admin admin new_admin) = Admin.update_admin env admin new_admin
  apply env (slash admin user shortfall) = Slashing.slash env admin user shortfall >>= λ _. pure tt
  apply env (set_slash_notice_period admin period_seconds) =
      Slashing.set_slash_notice_period env admin period_seconds
  apply env (create_slash_notice admin user amount) =
      Slashing.create_slash_notice env admin user amount
  apply env (cancel_slash admin user) = Slashing.cancel_slash env admin user
  apply env (execute_slash admin user) = Slashing.execute_slash env admin user

  unfoldable pub step : Env → Call → Store W → Store W
  step env c s = commit s (apply env c s)

  unfoldable pub run : List (Env × Call) → Store W → Store W
  run [] s = s
  run ((env, c) ∷ cs) s = run cs (step env c s)

-- The storage after `init`.
abbrev pub opened : {W : Type 0} → Address → Address → W → Store W
opened admin token w = record {
  admin = some admin;
  token = some token;
  stakes = [];
  unbonding = [];
  total_staked = some (pos 0);
  staker_list = some [];
  slash_notices = [];
  slash_notice_period = none;
  paused_flag = some false;
  lock = none;
  events = [];
  tokens = w;
}
