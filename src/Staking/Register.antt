-- ===== src/Staking/Register.antt =====
-- The list of stakers of packages/staking/src/contract.rs after any history of calls.
use moistello_contracts.Prelude.{
  ℕ, ℤ, pos, ◌≡◌, ◌/◌, checked_mul, checked_add_u32, checked_add_u64, wrapping_u32, eqb_ℤ, some,
  List, [], ◌∷◌, push_back,
}
use moistello_contracts.Soroban.Contract.{Address, Env}
use moistello_contracts.Soroban.Outcome.{commit_keeps, after_ok_or, after_call}
use moistello_contracts.Soroban.Keeps.{Keeps, keeping, Keeps-modify}
use moistello_contracts.Soroban.Turns.{Turns, turning, Keeps-reading, Turns-if_else}
use moistello_contracts.Soroban.Map.{get, set, address_key}
use moistello_contracts.Soroban.Yields.{Each}
use moistello_contracts.Common.Pause.{Keeps-when_not_paused}
use moistello_contracts.Common.Pause
use moistello_contracts.Common.Reentrancy.{Keeps-guarded}
use moistello_contracts.Common.TokenTransfer.{TokenLedger, Keeps-client_transfer}
use moistello_contracts.Staking.Types.{
  StakingError, StakingPeriod, StakePosition, multiplier, as_seconds, Store, staking_ledger,
  staking_lock, staking_pause,
}
use moistello_contracts.Staking.Positions.{
  put_stake, drop_stake, raise_total, lower_total, open_position, start_unbonding, grow_stake,
  when_not_paused, require_no_stake, stakers_of,
}
use moistello_contracts.Staking.Positions
use moistello_contracts.Staking.Slashing.{reduce_stake, take_stake, charge_stake}
use moistello_contracts.Staking.Slashing
use moistello_contracts.Staking.Admin
use moistello_contracts.Staking.Calls.{Call, IsNoInit, apply, step, run}
use moistello_contracts.Staking.Listing.{IsListed, opened-IsListed, put-IsListed, dropped-IsListed}

module _ {W : Type 0} where
  drop_stake-IsListed :
      (user : Address) → Keeps {S = Store W} {E = StakingError} IsListed (drop_stake user)
  drop_stake-IsListed user = Keeps-modify (dropped-IsListed user)

  put_stake-IsListed :
      (user : Address) (position old : StakePosition)
      → Turns {S = Store W} {E = StakingError}
          (λ s. IsListed s × (get user s.stakes ≡ some old))
          IsListed
          (put_stake user position)
  put_stake-IsListed user position old = record {
    turned = λ s h. put-IsListed user position old s h.0 h.1;
  }

  raise_total-IsListed : (amount : ℤ) → Keeps {S = Store W} IsListed (raise_total amount)
  unfolding raise_total
  raise_total-IsListed amount = search keeping depth 10

  lower_total-IsListed : (amount : ℤ) → Keeps {S = Store W} IsListed (lower_total amount)
  unfolding lower_total
  lower_total-IsListed amount = search keeping depth 10

  -- The list names the stakers when the user has been added to it.
  abbrev IsOneShort : Address → Store W → Type 0
  IsOneShort user s = IsListed (record s { staker_list = some (push_back (stakers_of s) user) })

  raise_total-IsOneShort :
      (user : Address) (amount : ℤ) → Keeps (IsOneShort user) (raise_total amount)
  unfolding raise_total
  raise_total-IsOneShort user amount = search keeping depth 10

  open_position-IsListed :
      (env : Env) (user : Address) (amount : ℤ) (period : StakingPeriod)
      → Keeps {S = Store W} IsListed (open_position env user amount period)
  unfolding open_position
  open_position-IsListed env user amount period = record {
    holds = λ s h. after_ok_or _ (checked_mul amount (pos (multiplier period))) _ _ s λ power _.
        after_ok_or _ (checked_add_u64 env.timestamp (as_seconds period)) _ _ s λ time _.
          after_ok_or _ (checked_add_u32 env.sequence (wrapping_u32 (as_seconds period / 5))) _ _ s
            λ ledger _.
              let position : StakePosition = record {
                amount = amount;
                period = period;
                start_time = env.timestamp;
                unlock_time = time;
                voting_power = power;
                start_ledger = env.sequence;
                unlock_ledger = ledger;
              } in
              after_call _ (raise_total amount (record s { stakes = set user position s.stakes }))
                (IsOneShort user) _
                ((raise_total-IsOneShort user amount).holds _ (opened-IsListed user position s h))
                (λ _ s' q. q);
  }

  start_unbonding-IsListed :
      (env : Env) (user : Address) (amount : ℤ) (claimable_time : ℕ)
      → Keeps {S = Store W} IsListed (start_unbonding env user amount claimable_time)
  unfolding start_unbonding
  start_unbonding-IsListed env user amount claimable_time =
      search (keeping, drop_stake-IsListed, lower_total-IsListed) depth 10

  grow_stake-IsListed :
      (env : Env) (user : Address) (amount : ℤ) (position : StakePosition)
      → Turns {S = Store W}
          (λ s. IsListed s × (get user s.stakes ≡ some position))
          IsListed
          (grow_stake env user amount position)
  unfolding grow_stake
  grow_stake-IsListed env user amount position =
      search (turning, put_stake-IsListed, raise_total-IsListed) depth 12

  reduce_stake-IsListed :
      (user : Address) (position : StakePosition) (new : ℤ)
      → Turns {S = Store W}
          (λ s. IsListed s × (get user s.stakes ≡ some position))
          IsListed
          (reduce_stake user position new)
  unfolding reduce_stake
  reduce_stake-IsListed user position new =
      Turns-if_else (eqb_ℤ new (pos 0))
        (record { turned = λ s h. (drop_stake-IsListed user).holds s h.0 })
        (search (turning, put_stake-IsListed) depth 8)

  take_stake-IsListed :
      (user : Address) (position : StakePosition) (amount : ℤ)
      → Turns {S = Store W}
          (λ s. IsListed s × (get user s.stakes ≡ some position))
          IsListed
          (take_stake user position amount)
  unfolding take_stake
  take_stake-IsListed user position amount =
      search (turning, reduce_stake-IsListed, lower_total-IsListed) depth 10

  charge_stake-IsListed :
      (user : Address) (amount : ℤ) → Keeps {S = Store W} IsListed (charge_stake user amount)
  unfolding charge_stake
  charge_stake-IsListed user amount = search (turning, Keeps-reading, put_stake-IsListed) depth 14

  ruleset listing = (
    turning, Keeps-reading, Keeps-when_not_paused, Keeps-guarded, open_position-IsListed,
    start_unbonding-IsListed, grow_stake-IsListed, take_stake-IsListed, charge_stake-IsListed,
  )

module _ {W : Type 0} (t : TokenLedger W) where
  apply-IsListed : (env : Env) (c : Call) → IsNoInit (env, c) → Keeps IsListed (apply t env c)
  unfolding apply Positions.stake Positions.top_up Positions.unstake Positions.claim when_not_paused
      require_no_stake Admin.pause Admin.unpause Admin.update_admin Admin.get_voting_power
      Slashing.slash Slashing.set_slash_notice_period Slashing.create_slash_notice
      Slashing.cancel_slash Slashing.execute_slash Slashing.require_admin Slashing.check_admin
      Pause.pause Pause.unpause
  apply-IsListed env (Call.init admin token) later = absurd later
  apply-IsListed env (Call.stake user amount period_months) later =
      search (listing, Keeps-client_transfer t) depth 24
  apply-IsListed env (Call.top_up user amount) later =
      search (listing, Keeps-client_transfer t) depth 20
  apply-IsListed env (Call.claim user) later = search (listing, Keeps-client_transfer t) depth 20
  apply-IsListed env c later = search listing depth 20

  -- However the contract is called, failed calls included, but for `init`, which empties the list
  -- and leaves the stakes: if no user has two stakes and the list of stakers names exactly the users
  -- who have one, then this holds afterwards.
  pub run-IsListed :
      (cs : List (Env × Call)) (s : Store W) → Each IsNoInit cs → IsListed s → IsListed (run t cs s)
  unfolding run step
  run-IsListed [] s later h = h
  run-IsListed ((env, c) ∷ cs) s later h =
      run-IsListed cs (step t env c s) later.1
        (commit_keeps IsListed s (apply t env c s) h ((apply-IsListed env c later.0).holds s h))
