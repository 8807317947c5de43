-- ===== src/Staking/Locks.antt =====
-- The times of packages/staking/src/contract.rs: what cannot be unstaked or claimed yet.
use moistello_contracts.Prelude.{
  ℕ, ℤ, pos, ◌+◌, ◌/◌, ◌<◌, ◌≡◌, refl, ap, ==_iff, subst, not, leb, Option, none, some, arith,
  checked_add_u64, checked_add_u32, checked_mul, wrapping_u32,
}
use moistello_contracts.Soroban.Contract.{Address, Env}
use moistello_contracts.Soroban.Outcome.{
  Post, Post-trivial, Post-map, after_ok_or, after_require, after_call, after_fail_if,
}
use moistello_contracts.Soroban.Keeps.{
  Keeps, keeping, Refuses, Refuses-rest, Keeps-map_err, Keeps-require, Keeps-modify, Keeps-fail_if,
  Keeps-load,
}
use moistello_contracts.Soroban.Turns.{Turns-ok_or, Turns, Turns-last, Turns-first}
use moistello_contracts.Soroban.Map.{get, set, get-set, address_key}
use moistello_contracts.Common.Pause.{Keeps-when_not_paused}
use moistello_contracts.Common.Reentrancy.{Refuses-guarded, Turns-guarded}
use moistello_contracts.Common.TokenTransfer.{TokenLedger, Keeps-client_transfer}
use moistello_contracts.Staking.Types.{
  StakePosition, UnbondingPosition, StakingPeriod, multiplier, as_seconds, unbonding_period_seconds,
  from_u32, Store, staking_lock, staking_ledger, staking_pause,
}
use moistello_contracts.Staking.Positions.{
  require_no_stake, when_not_paused, is_period_elapsed, start_unbonding, lower_total, raise_total,
  open_position, stake, unstake, claim,
}

module _ {W : Type 0} where
  -- While the lock of a stake lasts, it cannot be unstaked.
  unstake-Refuses :
      (env : Env) (user : Address) (position : StakePosition)
      → env.timestamp < position.unlock_time
      → Refuses (λ s. get user s.stakes ≡ some position) (unstake {W = W} env user)
  unfolding unstake when_not_paused is_period_elapsed
  unstake-Refuses env user position early =
      Refuses-rest (Keeps-map_err _ Keeps-when_not_paused) λ _. record {
        refused = λ s held. after_require _ (env.authorized user) _ s λ _.
            after_ok_or _ (get user s.stakes) _ _ s λ found read.
              let same : position ≡ found = cc in
              let time = ap (λ p. p.unlock_time) same in
              after_fail_if _ (not (leb found.unlock_time env.timestamp)) _ _ s
                λ past. ground (arith, time);
      }

  abbrev HasUnbonding : Address → ℕ → Store W → Type 0
  HasUnbonding user time s =
      (position : UnbondingPosition) × ((get user s.unbonding ≡ some position)
        × (position.claimable_time ≡ time))

  keeps_pause : {P : Store W → Type 0} → Keeps P when_not_paused
  unfolding when_not_paused
  keeps_pause = Keeps-map_err _ Keeps-when_not_paused

  require_no_stake-trivial :
      (user : Address) → Keeps {S = Store W} (λ _. Unit) (require_no_stake user)
  unfolding require_no_stake
  require_no_stake-trivial user = search keeping depth 6

  raise_total-Keeps :
      (amount : ℤ) (P : Store W → Type 0)
      → ((total : Option ℤ) (s : Store W) → P s → P (record s { total_staked = total }))
      → Keeps P (raise_total amount)
  unfolding raise_total
  raise_total-Keeps amount P stable = search (keeping, stable) depth 6

  lower_total-Keeps :
      (amount : ℤ) (P : Store W → Type 0)
      → ((total : Option ℤ) (s : Store W) → P s → P (record s { total_staked = total }))
      → Keeps P (lower_total amount)
  unfolding lower_total
  lower_total-Keeps amount P stable = search (keeping, stable) depth 6

  start_unbonding-HasUnbonding :
      (env : Env) (user : Address) (amount : ℤ) (time : ℕ) (s : Store W)
      → Post (HasUnbonding user time) (start_unbonding env user amount time s)
  unfolding start_unbonding
  start_unbonding-HasUnbonding env user amount time s =
      let position : UnbondingPosition = record {
        amount = amount;
        unbonding_start_time = env.timestamp;
        claimable_time = time;
      } in
      (lower_total-Keeps amount (HasUnbonding user time) (λ o s h. h)).holds _ (
        position,
        (rw (get-set user user position s.unbonding) (rw ((==_iff user user).1 refl) refl), refl),
      )

  unstake-HasUnbonding :
      (env : Env) (user : Address) (s : Store W)
      → Post (HasUnbonding user (env.timestamp + unbonding_period_seconds)) (unstake env user s)
  unfolding unstake
  unstake-HasUnbonding env user s =
      after_call _ (when_not_paused s) (λ _. Unit) _ (Post-trivial _)
        λ _ s1 _. after_require _ (env.authorized user) _ s1 λ _.
          after_ok_or _ (get user s1.stakes) _ _ s1 λ position held.
            after_fail_if _ (not (is_period_elapsed env.timestamp position.unlock_time)) _ _ s1
              λ past.
                after_ok_or _ (checked_add_u64 env.timestamp unbonding_period_seconds) _ _ s1
                  λ time added.
                    let exact : time ≡ env.timestamp + unbonding_period_seconds = ground arith in
                    after_call _ (start_unbonding env user position.amount time s1)
                      (HasUnbonding user (env.timestamp + unbonding_period_seconds)) _
                      (subst
                        (λ n.
                          Post (HasUnbonding user n)
                            (start_unbonding env user position.amount time s1))
                        exact (start_unbonding-HasUnbonding env user position.amount time s1))
                      (λ _ s2 q. q)

-- The time a stake is locked for.
abbrev pub seconds_of : Option StakingPeriod → ℕ
seconds_of none = 0
seconds_of (some period) = as_seconds period

abbrev pub lock_seconds : ℕ → ℕ
lock_seconds period_months = seconds_of (from_u32 period_months)

module _ {W : Type 0} (t : TokenLedger W) where
  claim-Refuses :
      (env : Env) (user : Address) (time : ℕ)
      → env.timestamp < time
      → Refuses (HasUnbonding user time) (claim t env user)
  unfolding claim when_not_paused is_period_elapsed
  claim-Refuses env user time early = Refuses-rest (Keeps-map_err _ Keeps-when_not_paused) λ _.
      Refuses-guarded _ (λ b s h. h)
        (record {
          refused = λ s held. after_require _ (env.authorized user) _ s λ _.
              after_ok_or _ (get user s.unbonding) _ _ s λ found read.
                let same : held.0 ≡ found = cc in
                let time = ap (λ p. p.claimable_time) same in
                let exact = held.1.1 in
                after_fail_if _ (not (leb found.claimable_time env.timestamp)) _ _ s
                  λ past. ground (arith, time, exact);
        })

  -- Tokens that are unstaked cannot be claimed before the unbonding period is over: after a
  -- successful `unstake`, a claim of the user at an earlier time than 14 days later is refused, if the
  -- storage has not changed since.
  pub unstake-claim :
      (env : Env) (user : Address) (s : Store W)
      → Post
          (λ s'.
            (later : Env)
            → later.timestamp < env.timestamp + unbonding_period_seconds
            → Post (λ _. ⊥) (claim t later user s'))
          (unstake env user s)
  unstake-claim env user s =
      Post-map _ _ (unstake env user s)
        (λ s' held later early.
          (claim-Refuses later user (env.timestamp + unbonding_period_seconds) early).refused s'
            held)
        (unstake-HasUnbonding env user s)

  abbrev HasLock : Address → ℕ → Store W → Type 0
  HasLock user time s =
      (position : StakePosition) × ((get user s.stakes ≡ some position)
        × (position.unlock_time ≡ time))

  open_position-HasLock :
      (env : Env) (user : Address) (amount : ℤ) (period : StakingPeriod) (s : Store W)
      → Post
          (HasLock user (env.timestamp + as_seconds period))
          (open_position env user amount period s)
  unfolding open_position
  open_position-HasLock env user amount period s =
      after_ok_or _ (checked_mul amount (pos (multiplier period))) _ _ s λ power _.
        after_ok_or _ (checked_add_u64 env.timestamp (as_seconds period)) _ _ s λ time added.
          after_ok_or _ (checked_add_u32 env.sequence (wrapping_u32 (as_seconds period / 5))) _ _ s
            λ ledger _.
              let position : StakePosition = record {
                amount = amount;
                period = period;
                start_time = env.timestamp;
                unlock_time = time;
                voting_power = power;
                start_ledger = env.sequence;
                unlock_ledger = ledger;
              } in
              let exact : time ≡ env.timestamp + as_seconds period = ground arith in
              after_call _ (raise_total amount (record s { stakes = set user position s.stakes }))
                (HasLock user (env.timestamp + as_seconds period)) _
                ((raise_total-Keeps amount (HasLock user (env.timestamp + as_seconds period))
                    (λ o s h. h)).holds
                  _
                  (
                    position,
                    (
                      rw (get-set user user position s.stakes)
                          (rw ((==_iff user user).1 refl) refl),
                      exact,
                    ),
                  ))
                (λ _ s2 q. q)

  stake-HasLock :
      (env : Env) (user : Address) (amount : ℤ) (period_months : ℕ)
      → Turns
          (λ _. Unit)
          (HasLock user (env.timestamp + lock_seconds period_months))
          (stake t env user amount period_months)
  unfolding stake
  stake-HasLock env user amount period_months = Turns-last _ keeps_pause λ _.
      Turns-guarded _ (λ b s h. h) (λ b s h. h)
        (Turns-last _ (Keeps-require (env.authorized user)) λ _.
          Turns-last _ (Keeps-fail_if _ _) λ _.
            Turns-ok_or (from_u32 period_months) _ λ period read.
              let exact : as_seconds period ≡ lock_seconds period_months = rw read refl in
              Turns-last _ (require_no_stake-trivial user) λ _.
                Turns-last _ (Keeps-load (λ s. s.token) _) λ token.
                  Turns-last _
                    (Keeps-client_transfer t token user env.current_contract amount (λ w s h. h))
                    λ _.
                      Turns-first _
                        (record {
                          turned = λ s h.
                              subst
                                (λ n.
                                  Post (HasLock user (env.timestamp + n))
                                    (open_position env user amount period s))
                                exact (open_position-HasLock env user amount period s);
                        })
                        (λ _. Keeps-modify (λ s h. h)))

  -- Tokens that are staked stay locked: after a successful `stake`, whatever the storage has become
  -- through it, `unstake` at an earlier time than the end of the period is refused.
  pub stake-unstake :
      (env : Env) (user : Address) (amount : ℤ) (period_months : ℕ) (s : Store W)
      → Post
          (λ s'.
            (later : Env)
            → later.timestamp < env.timestamp + lock_seconds period_months
            → Post (λ _. ⊥) (unstake later user s'))
          (stake t env user amount period_months s)
  stake-unstake env user amount period_months s =
      Post-map _ _ (stake t env user amount period_months s)
        (λ s' held later early.
          (unstake-Refuses later user held.0 (omega (arith, early, held.1.1))).refused s' held.1.0)
        ((stake-HasLock env user amount period_months).turned s tt)
