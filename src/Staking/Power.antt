-- ===== src/Staking/Power.antt =====
-- The voting power that packages/staking/src/contract.rs records with a stake.
use moistello_contracts.Prelude.{
  ℕ, ℤ, pos, negsuc, ◌*ℤ◌, ◌≡◌, ◌∙◌, sym, ap, List, [], ◌∷◌, some, checked_mul, arith,
  checked_mul-eq, InI128, eqb_ℤ,
}
use moistello_contracts.Soroban.Contract.{Address, Env}
use moistello_contracts.Soroban.Outcome.{commit_keeps}
use moistello_contracts.Soroban.Keeps.{
  Keeps, keeping, Keeps-if_else, Keeps-ok_or, Keeps-bind, Keeps-modify,
}
use moistello_contracts.Soroban.Turns.{Turns-ok_or, Turns-Keeps, Keeps-Turns}
use moistello_contracts.Soroban.Map.{set-All, All, address_key}
use moistello_contracts.Soroban.Totals.{remove-All}
use moistello_contracts.Common.Pause.{Keeps-when_not_paused}
use moistello_contracts.Common.Pause
use moistello_contracts.Common.Reentrancy.{Keeps-guarded}
use moistello_contracts.Common.TokenTransfer.{TokenLedger, Keeps-client_transfer}
use moistello_contracts.Staking.Types.{
  StakingPeriod, StakePosition, multiplier, Store, staking_ledger, staking_lock, staking_pause,
  StakingError,
}
use moistello_contracts.Staking.Positions.{
  put_stake, drop_stake, raise_total, lower_total, open_position, start_unbonding, grow_stake,
  when_not_paused, require_no_stake,
}
use moistello_contracts.Staking.Positions
use moistello_contracts.Staking.Slashing.{wrap_i128, reduce_stake, take_stake, charge_stake}
use moistello_contracts.Staking.Slashing
use moistello_contracts.Staking.Admin
use moistello_contracts.Staking.Calls.{Call, apply, step, run}

-- The amount times the multiplier of the period, in 128 bits.
abbrev pub IsWeighted : StakePosition → Type 0
IsWeighted p = p.voting_power ≡ wrap_i128 (p.amount *ℤ pos (multiplier p.period))

-- A value in range is not changed by the wrap.
wrap_i128_lem : (a : ℤ) → InI128 a → wrap_i128 a ≡ a
wrap_i128_lem (pos n) h = ground arith
wrap_i128_lem (negsuc n) h = ground arith

-- A product that has been checked is the wrapped one.
checked_weight :
    (a : ℤ) (n : ℕ) (power : ℤ)
    → checked_mul a (pos n) ≡ some power
    → power ≡ wrap_i128 (a *ℤ pos n)
checked_weight a n power e =
    let exact = checked_mul-eq a (pos n) e in
    sym (wrap_i128_lem power exact.1) ∙ ap wrap_i128 exact.0

module _ {W : Type 0} where
  -- The voting power that is recorded with every stake is the weighted one.
  abbrev pub Weighted : Store W → Type 0
  Weighted s = All IsWeighted s.stakes

  put_stake-Weighted :
      (user : Address) (position : StakePosition)
      → IsWeighted position
      → Keeps {E = StakingError} Weighted (put_stake user position)
  put_stake-Weighted user position w =
      Keeps-modify (λ s h. set-All IsWeighted user position s.stakes w h)

  drop_stake-Weighted : (user : Address) → Keeps {E = StakingError} Weighted (drop_stake user)
  drop_stake-Weighted user = Keeps-modify (λ s h. remove-All IsWeighted user s.stakes h)

  raise_total-Weighted : (amount : ℤ) → Keeps Weighted (raise_total amount)
  unfolding raise_total
  raise_total-Weighted amount = search keeping depth 10

  lower_total-Weighted : (amount : ℤ) → Keeps Weighted (lower_total amount)
  unfolding lower_total
  lower_total-Weighted amount = search keeping depth 10

  open_position-Weighted :
      (env : Env) (user : Address) (amount : ℤ) (period : StakingPeriod)
      → Keeps Weighted (open_position env user amount period)
  unfolding open_position
  open_position-Weighted env user amount period = Turns-Keeps (
      Turns-ok_or (checked_mul amount (pos (multiplier period))) _ λ power e. Keeps-Turns (
        let w = checked_weight amount (multiplier period) power e in
        search (keeping, raise_total-Weighted, put_stake-Weighted) depth 12))

  start_unbonding-Weighted :
      (env : Env) (user : Address) (amount : ℤ) (claimable_time : ℕ)
      → Keeps Weighted (start_unbonding env user amount claimable_time)
  unfolding start_unbonding
  start_unbonding-Weighted env user amount claimable_time =
      search (keeping, drop_stake-Weighted, lower_total-Weighted) depth 10

  grow_stake-Weighted :
      (env : Env) (user : Address) (amount : ℤ) (position : StakePosition)
      → Keeps Weighted (grow_stake env user amount position)
  unfolding grow_stake
  grow_stake-Weighted env user amount position = Keeps-bind (Keeps-ok_or _ _) λ new. Turns-Keeps (
      Turns-ok_or (checked_mul new (pos (multiplier position.period))) _ λ power e. Keeps-Turns (
        let w = checked_weight new (multiplier position.period) power e in
        search (keeping, raise_total-Weighted, put_stake-Weighted) depth 12))

  reduce_stake-Weighted :
      (user : Address) (position : StakePosition) (new : ℤ)
      → Keeps Weighted (reduce_stake user position new)
  unfolding reduce_stake
  reduce_stake-Weighted user position new =
      Keeps-if_else (eqb_ℤ new (pos 0)) (drop_stake-Weighted user) (
        Turns-Keeps (
          Turns-ok_or (checked_mul new (pos (multiplier position.period))) _ λ power e.
            Keeps-Turns (
              put_stake-Weighted user _ (checked_weight new (multiplier position.period) power e))))

  take_stake-Weighted :
      (user : Address) (position : StakePosition) (amount : ℤ)
      → Keeps Weighted (take_stake user position amount)
  unfolding take_stake
  take_stake-Weighted user position amount =
      search (keeping, reduce_stake-Weighted, lower_total-Weighted) depth 12

  charge_stake-Weighted : (user : Address) (amount : ℤ) → Keeps Weighted (charge_stake user amount)
  unfolding charge_stake
  charge_stake-Weighted user amount = search (keeping, put_stake-Weighted) depth 14

  ruleset weighing = (
    keeping, Keeps-when_not_paused, Keeps-guarded, open_position-Weighted, start_unbonding-Weighted,
    grow_stake-Weighted, take_stake-Weighted, charge_stake-Weighted,
  )

module _ {W : Type 0} (t : TokenLedger W) where
  apply-Weighted : (env : Env) (c : Call) → Keeps Weighted (apply t env c)
  unfolding apply Positions.init Positions.stake Positions.top_up Positions.unstake Positions.claim
      when_not_paused require_no_stake Admin.pause Admin.unpause Admin.update_admin
      Admin.get_voting_power Slashing.slash Slashing.set_slash_notice_period
      Slashing.create_slash_notice Slashing.cancel_slash Slashing.execute_slash
      Slashing.require_admin Slashing.check_admin Pause.pause Pause.unpause
  apply-Weighted env (Call.stake user amount period_months) =
      search (weighing, Keeps-client_transfer t) depth 24
  apply-Weighted env (Call.top_up user amount) = search (weighing, Keeps-client_transfer t) depth 20
  apply-Weighted env (Call.claim user) = search (weighing, Keeps-client_transfer t) depth 20
  apply-Weighted env c = search weighing depth 20

  -- However the contract is called, failed calls included: if the voting power recorded with every
  -- stake is the amount of the stake times the multiplier of its period, in 128 bits, then this holds
  -- of every stake afterwards.
  pub run-Weighted : (cs : List (Env × Call)) (s : Store W) → Weighted s → Weighted (run t cs s)
  unfolding run step
  run-Weighted [] s h = h
  run-Weighted ((env, c) ∷ cs) s h =
      run-Weighted cs (step t env c s)
        (commit_keeps Weighted s (apply t env c s) h ((apply-Weighted env c).holds s h))
