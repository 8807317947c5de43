-- ===== src/Staking/History.antt =====
-- The total of packages/staking/src/contract.rs after any history of calls.
use moistello_contracts.Prelude.{ℕ, ℤ, ◌≡◌, false, List, [], ◌∷◌}
use moistello_contracts.Soroban.Contract.{is_some, Address, Env, ◌>>=◌, ◌>>◌, load}
use moistello_contracts.Soroban.Outcome.{commit_keeps}
use moistello_contracts.Soroban.Keeps.{Keeps}
use moistello_contracts.Soroban.Turns.{Turns, turning, Keeps-reading, Turns-gate, Keeps-through}
use moistello_contracts.Soroban.Map.{get, address_key}
use moistello_contracts.Soroban.Yields.{Each}
use moistello_contracts.Common.Pause.{Keeps-when_not_paused}
use moistello_contracts.Common.Pause
use moistello_contracts.Common.Reentrancy.{Keeps-guarded}
use moistello_contracts.Common.TokenTransfer.{TokenLedger, client_transfer, Keeps-client_transfer}
use moistello_contracts.Staking.Types.{
  StakingError, StakingEvent, StakingPeriod, publish, not_initialized, Store, staking_ledger,
  staking_lock, staking_pause,
}
use moistello_contracts.Staking.Positions.{open_position, when_not_paused, require_no_stake}
use moistello_contracts.Staking.Positions
use moistello_contracts.Staking.Slashing
use moistello_contracts.Staking.Admin
use moistello_contracts.Staking.Calls.{Call, IsNoInit, apply, step, run}
use moistello_contracts.Staking.Tally.{
  IsTallied, open_position-IsTallied, start_unbonding-IsTallied, grow_stake-IsTallied,
  take_stake-IsTallied, charge_stake-IsTallied,
}

module _ {W : Type 0} (t : TokenLedger W) where
  ruleset tallying = (
    turning, Keeps-reading, Keeps-when_not_paused, open_position-IsTallied,
    start_unbonding-IsTallied, grow_stake-IsTallied, take_stake-IsTallied, charge_stake-IsTallied,
  )

  transfer-Keeps :
      {P : Store W → Type 0} (token from to : Address) (amount : ℤ)
      → ((w : W) (s : Store W) → P s → P (record s { tokens = w }))
      → Keeps {E = StakingError} P (client_transfer t token from to amount)
  transfer-Keeps = Keeps-client_transfer t

  pub gate :
      (P : Store W → Type 0) (user : Address)
      → Turns P (λ s. P s × (is_some (get user s.stakes) ≡ false)) (require_no_stake user)
  unfolding require_no_stake
  gate P user = Turns-gate (λ s. is_some (get user s.stakes)) _

  rest :
      (env : Env) (user : Address) (amount : ℤ) (period : StakingPeriod) (e : StakingEvent)
      → Keeps {S = Store W} IsTallied (do
        require_no_stake user
        token ← load (λ s. s.token) not_initialized
        client_transfer t token user env.current_contract amount
        open_position env user amount period
        publish e)
  rest env user amount period e =
      Keeps-through _ (gate IsTallied user) (λ _. search (tallying, transfer-Keeps) depth 14)

  stake-IsTallied :
      (env : Env) (user : Address) (amount : ℤ) (period_months : ℕ)
      → Keeps IsTallied (Positions.stake t env user amount period_months)
  unfolding Positions.stake when_not_paused
  stake-IsTallied env user amount period_months = search (tallying, Keeps-guarded, rest) depth 20

  top_up-IsTallied :
      (env : Env) (user : Address) (amount : ℤ)
      → Keeps IsTallied (Positions.top_up t env user amount)
  unfolding Positions.top_up when_not_paused
  top_up-IsTallied env user amount = search (tallying, Keeps-guarded, transfer-Keeps) depth 20

  apply-IsTallied : (env : Env) (c : Call) → IsNoInit (env, c) → Keeps IsTallied (apply t env c)
  unfolding apply Positions.unstake Positions.claim when_not_paused Admin.pause Admin.unpause
      Admin.update_admin Admin.get_voting_power Slashing.slash Slashing.set_slash_notice_period
      Slashing.create_slash_notice Slashing.cancel_slash Slashing.execute_slash
      Slashing.require_admin Slashing.check_admin Pause.pause Pause.unpause
  apply-IsTallied env (Call.init admin token) later = absurd later
  apply-IsTallied env (Call.stake user amount period_months) later =
      stake-IsTallied env user amount period_months
  apply-IsTallied env (Call.top_up user amount) later = top_up-IsTallied env user amount
  apply-IsTallied env c later = search (tallying, Keeps-guarded, transfer-Keeps) depth 20

  -- However the contract is called, failed calls included, but for `init`, which sets the total to
  -- zero each time it succeeds: if the recorded total of all stakes is the sum of the recorded
  -- stakes, then it is so afterwards.
  pub run-IsTallied :
      (cs : List (Env × Call)) (s : Store W)
      → Each IsNoInit cs
      → IsTallied s
      → IsTallied (run t cs s)
  unfolding run step
  run-IsTallied [] s later h = h
  run-IsTallied ((env, c) ∷ cs) s later h =
      run-IsTallied cs (step t env c s) later.1
        (commit_keeps IsTallied s (apply t env c s) h ((apply-IsTallied env c later.0).holds s h))
