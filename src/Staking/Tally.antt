-- ===== src/Staking/Tally.antt =====
-- The total of packages/staking/src/contract.rs and the stakes.
use moistello_contracts.Prelude.{
  ℕ, ℤ, pos, ◌+ℤ◌, ◌-ℤ◌, ◌≡◌, refl, ◌∙◌, false, eqb_ℤ, Option, none, some, int_laws, checked_add,
  checked_sub, checked_mul, checked_add-eq, checked_sub-eq, checked_add_u32, checked_add_u64,
  Bool-cases, inl, inr, ◌/◌, wrapping_u32, arith,
}
use moistello_contracts.Soroban.Contract.{is_some, Address, Env}
use moistello_contracts.Soroban.Outcome.{Post, after_ok_or, after_call}
use moistello_contracts.Soroban.Keeps.{Keeps}
use moistello_contracts.Soroban.Turns.{Turns, Turns-reading, Turns-Keeps}
use moistello_contracts.Soroban.Map.{get, set, address_key}
use moistello_contracts.Soroban.Totals.{total, total-set, total-remove, amount_of}
use moistello_contracts.Common.Math.Exact.{after_safe_sub}
use moistello_contracts.Staking.Types.{
  StakingPeriod, StakePosition, multiplier, as_seconds, Store, staking_ledger,
}
use moistello_contracts.Staking.Positions.{
  total_of, raise_total, lower_total, open_position, start_unbonding, grow_stake,
}
use moistello_contracts.Staking.Slashing.{reduce_stake, take_stake, charge_stake}

abbrev pub staked_by : StakePosition → ℤ
staked_by position = position.amount

none_held : (o : Option StakePosition) → is_some o ≡ false → amount_of staked_by o ≡ pos 0
none_held none h = refl
none_held (some p) h = cc

module _ {W : Type 0} where
  -- The recorded total is the sum of the stakes.
  abbrev pub IsTallied : Store W → Type 0
  IsTallied s = total_of s ≡ total staked_by s.stakes

  raise_total-IsTallied :
      (amount : ℤ) (s : Store W)
      → total_of s +ℤ amount ≡ total staked_by s.stakes
      → Post IsTallied (raise_total amount s)
  unfolding raise_total
  raise_total-IsTallied amount s h =
      after_ok_or _ (checked_add (total_of s) amount) _ _ s
        λ new raised. (checked_add-eq (total_of s) amount raised).0 ∙ h

  lower_total-IsTallied :
      (amount : ℤ) (s : Store W)
      → total_of s -ℤ amount ≡ total staked_by s.stakes
      → Post IsTallied (lower_total amount s)
  unfolding lower_total
  lower_total-IsTallied amount s h =
      after_ok_or _ (checked_sub (total_of s) amount) _ _ s
        λ new lowered. (checked_sub-eq (total_of s) amount lowered).0 ∙ h

  pub open_position-IsTallied :
      (env : Env) (user : Address) (amount : ℤ) (period : StakingPeriod)
      → Turns
          (λ s. IsTallied s × (is_some (get user s.stakes) ≡ false))
          IsTallied
          (open_position env user amount period)
  unfolding open_position
  open_position-IsTallied env user amount period = record {
    turned = λ s h. after_ok_or _ (checked_mul amount (pos (multiplier period))) _ _ s λ power _.
        after_ok_or _ (checked_add_u64 env.timestamp (as_seconds period)) _ _ s λ time _.
          after_ok_or _ (checked_add_u32 env.sequence (wrapping_u32 (as_seconds period / 5))) _ _ s
            λ ledger _.
              let position : StakePosition = record {
                amount = amount;
                period = period;
                start_time = env.timestamp;
                unlock_time = time;
                voting_power = power;
                start_ledger = env.sequence;
                unlock_ledger = ledger;
              } in
              after_call _ (raise_total amount (record s { stakes = set user position s.stakes }))
                IsTallied _
                (raise_total-IsTallied amount _ (
                  grind (
                    int_laws,
                    total-set staked_by user position s.stakes,
                    h.0,
                    none_held (get user s.stakes) h.1,
                  )))
                (λ _ s' q. q);
  }

  pub start_unbonding-IsTallied :
      (env : Env) (user : Address) (position : StakePosition) (claimable_time : ℕ)
      → Turns
          (λ s. IsTallied s × (get user s.stakes ≡ some position))
          IsTallied
          (start_unbonding env user position.amount claimable_time)
  unfolding start_unbonding
  start_unbonding-IsTallied env user position claimable_time = record {
    turned = λ s h.
        let held : amount_of staked_by (get user s.stakes) ≡ position.amount = rw h.1 refl in
        lower_total-IsTallied position.amount _
          (grind (int_laws, total-remove staked_by user s.stakes, h.0, held));
  }

  pub grow_stake-IsTallied :
      (env : Env) (user : Address) (amount : ℤ) (position : StakePosition)
      → Turns
          (λ s. IsTallied s × (get user s.stakes ≡ some position))
          IsTallied
          (grow_stake env user amount position)
  unfolding grow_stake
  grow_stake-IsTallied env user amount position = record {
    turned = λ s h.
        let held : amount_of staked_by (get user s.stakes) ≡ position.amount = rw h.1 refl in
        after_ok_or _ (checked_add position.amount amount) _ _ s λ new added.
          after_ok_or _ (checked_mul new (pos (multiplier position.period))) _ _ s λ power _.
            let sum = (checked_add-eq position.amount amount added).0 in
            after_call _ (raise_total amount _) IsTallied _
              (raise_total-IsTallied amount _
                (grind (int_laws, total-set staked_by user _ s.stakes, h.0, held, sum)))
              (λ _ s' q. q);
  }

  -- The stake loses an amount, and the total has not been lowered yet.
  abbrev IsOver : ℤ → Store W → Type 0
  IsOver amount s = total_of s -ℤ amount ≡ total staked_by s.stakes

  reduce_stake-IsOver :
      (user : Address) (position : StakePosition) (amount new : ℤ)
      → new ≡ position.amount -ℤ amount
      → Turns
          (λ s. IsTallied s × (get user s.stakes ≡ some position))
          (IsOver amount)
          (reduce_stake user position new)
  unfolding reduce_stake
  reduce_stake-IsOver user position amount new rest = record {
    turned = λ s h.
        let held : amount_of staked_by (get user s.stakes) ≡ position.amount = rw h.1 refl in
        elim (Bool-cases (eqb_ℤ new (pos 0))) [
          | inl zero ↦
              let nothing : new ≡ pos 0 = ground arith in
              rw zero
                (grind (int_laws, total-remove staked_by user s.stakes, h.0, held, rest, nothing))
          | inr left ↦ rw left (
              after_ok_or _ (checked_mul new (pos (multiplier position.period))) _ _ s
                λ power _. grind (int_laws, total-set staked_by user _ s.stakes, h.0, held, rest))
        ];
  }

  pub take_stake-IsTallied :
      (user : Address) (position : StakePosition) (amount : ℤ)
      → Turns
          (λ s. IsTallied s × (get user s.stakes ≡ some position))
          IsTallied
          (take_stake user position amount)
  unfolding take_stake
  take_stake-IsTallied user position amount = record {
    turned = λ s h. after_ok_or _ (checked_sub position.amount amount) _ _ s λ new taken.
        after_call _ (reduce_stake user position new s) (IsOver amount) _
          ((reduce_stake-IsOver user position amount new
              (checked_sub-eq position.amount amount taken).0).turned
            s h)
          (λ _ s' over. lower_total-IsTallied amount s' over);
  }

  pub charge_stake-IsTallied :
      (user : Address) (amount : ℤ) → Keeps IsTallied (charge_stake user amount)
  unfolding charge_stake
  charge_stake-IsTallied user amount = Turns-Keeps (
      Turns-reading (λ s. get user s.stakes) _
        λ position. record {
          turned = λ s h.
              let held : amount_of staked_by (get user s.stakes) ≡ position.amount = rw h.1 refl in
              after_safe_sub _ position.amount amount _ _ s λ new taken.
                after_safe_sub _ (total_of s) amount _ _ _ λ left lowered.
                  grind
                    (int_laws, total-set staked_by user _ s.stakes, h.0, held, taken.0, lowered.0);
        })
