-- ===== src/Staking/Solvency.antt =====
-- The tokens that the contract of packages/staking/src/contract.rs holds, and what it owes.
use moistello_contracts.Prelude.{
  ℕ, ℤ, pos, pos_part, ◌+ℤ◌, ◌-ℤ◌, ◌≤ℤ◌, ◌≡◌, ◌≢◌, refl, sym, ◌∙◌, subst, false, eqb_ℤ, Option,
  none, some, int_laws, checked_add, checked_sub, checked_mul, checked_add-eq, checked_sub-eq,
  checked_add_u32, checked_add_u64, Bool-cases, inl, inr, ◌/◌, wrapping_u32, arith,
}
use moistello_contracts.Soroban.Contract.{is_some, Address, Env}
use moistello_contracts.Soroban.Outcome.{Post, after_ok_or, after_call}
use moistello_contracts.Soroban.Keeps.{Keeps, keeping}
use moistello_contracts.Soroban.Turns.{Turns, Turns-Keeps, Turns-reading}
use moistello_contracts.Soroban.Map.{get, set, All, address_key}
use moistello_contracts.Soroban.Totals.{total, total-set, total-remove, amount_of}
use moistello_contracts.Common.Math.Exact.{after_safe_sub}
use moistello_contracts.Common.TokenTransfer.{TokenLedger, IsStandard, client_transfer, settle}
use moistello_contracts.Staking.Types.{
  StakingPeriod, StakePosition, UnbondingPosition, SlashNotice, StakingError, multiplier,
  as_seconds, Store, staking_ledger,
}
use moistello_contracts.Staking.Positions.{
  total_of, raise_total, lower_total, open_position, start_unbonding, grow_stake,
}
use moistello_contracts.Staking.Slashing.{reduce_stake, take_stake, charge_stake}

-- What is owed for an amount: nothing if it is below zero.
abbrev pub due : ℤ → ℤ
due amount = pos (pos_part amount)

abbrev pub stake_due : StakePosition → ℤ
stake_due position = due position.amount

abbrev pub unbonding_due : UnbondingPosition → ℤ
unbonding_due position = due position.amount

abbrev pub IsPositive : SlashNotice → Type 0
IsPositive notice = pos 1 ≤ℤ notice.amount

none_due : (o : Option StakePosition) → is_some o ≡ false → amount_of stake_due o ≡ pos 0
none_due none h = refl
none_due (some p) h = cc

amount_of_nonneg : (o : Option UnbondingPosition) → pos 0 ≤ℤ amount_of unbonding_due o
amount_of_nonneg none = omega arith
amount_of_nonneg (some p) = omega arith

module _ {W : Type 0} where
  -- All stakes and all unbonding positions.
  abbrev pub owed : Store W → ℤ
  owed s = total stake_due s.stakes +ℤ total unbonding_due s.unbonding

module _ {W : Type 0} (t : TokenLedger W) (token self : Address) where
  -- The contract's token is this one, every notice is for a positive amount, and the contract holds
  -- what it owes and an amount more.
  abbrev pub IsCoveredBy : ℤ → Store W → Type 0
  IsCoveredBy extra s =
      (s.token ≡ some token)
      × (All IsPositive s.slash_notices × (owed s +ℤ extra ≤ℤ t.balance token self s.tokens))

  abbrev pub IsCovered : Store W → Type 0
  IsCovered s =
      (s.token ≡ some token)
      × (All IsPositive s.slash_notices × (owed s ≤ℤ t.balance token self s.tokens))

  -- A change of the total alone.
  raise_total-IsCovered : (amount : ℤ) → Keeps IsCovered (raise_total amount)
  unfolding raise_total
  raise_total-IsCovered amount = search keeping depth 6

  lower_total-IsCovered : (amount : ℤ) → Keeps IsCovered (lower_total amount)
  unfolding lower_total
  lower_total-IsCovered amount = search keeping depth 6

  pub open_position-IsCovered :
      (env : Env) (user : Address) (amount : ℤ) (period : StakingPeriod)
      → pos 0 ≤ℤ amount
      → Turns
          (λ s. IsCoveredBy amount s × (is_some (get user s.stakes) ≡ false))
          IsCovered
          (open_position env user amount period)
  unfolding open_position
  open_position-IsCovered env user amount period positive = record {
    turned = λ s h. after_ok_or _ (checked_mul amount (pos (multiplier period))) _ _ s λ power _.
        after_ok_or _ (checked_add_u64 env.timestamp (as_seconds period)) _ _ s λ time _.
          after_ok_or _ (checked_add_u32 env.sequence (wrapping_u32 (as_seconds period / 5))) _ _ s
            λ ledger _.
              let position : StakePosition = record {
                amount = amount;
                period = period;
                start_time = env.timestamp;
                unlock_time = time;
                voting_power = power;
                start_ledger = env.sequence;
                unlock_ledger = ledger;
              } in
              after_call _ (raise_total amount (record s { stakes = set user position s.stakes }))
                IsCovered _
                ((raise_total-IsCovered amount).holds _ (
                  h.0.0,
                  (
                    h.0.1.0,
                    (grind (
                      int_laws,
                      total-set stake_due user position s.stakes,
                      h.0.1.1,
                      none_due (get user s.stakes) h.1,
                    )),
                  ),
                ))
                (λ _ s' q. q);
  }

  pub start_unbonding-IsCovered :
      (env : Env) (user : Address) (position : StakePosition) (claimable_time : ℕ)
      → Turns
          (λ s. IsCovered s × (get user s.stakes ≡ some position))
          IsCovered
          (start_unbonding env user position.amount claimable_time)
  unfolding start_unbonding
  start_unbonding-IsCovered env user position claimable_time = record {
    turned = λ s h.
        let held : amount_of stake_due (get user s.stakes) ≡ stake_due position = rw h.1 refl in
        (lower_total-IsCovered position.amount).holds _ (
          h.0.0,
          (
            h.0.1.0,
            (grind (
              int_laws,
              total-remove stake_due user s.stakes,
              total-set unbonding_due user _ s.unbonding,
              amount_of_nonneg (get user s.unbonding),
              h.0.1.1,
              held,
            )),
          ),
        );
  }

  pub grow_stake-IsCovered :
      (env : Env) (user : Address) (amount : ℤ) (position : StakePosition)
      → pos 0 ≤ℤ amount
      → Turns
          (λ s. IsCoveredBy amount s × (get user s.stakes ≡ some position))
          IsCovered
          (grow_stake env user amount position)
  unfolding grow_stake
  grow_stake-IsCovered env user amount position positive = record {
    turned = λ s h.
        let held : amount_of stake_due (get user s.stakes) ≡ stake_due position = rw h.1 refl in
        after_ok_or _ (checked_add position.amount amount) _ _ s λ new added.
          after_ok_or _ (checked_mul new (pos (multiplier position.period))) _ _ s λ power _.
            let sum = (checked_add-eq position.amount amount added).0 in
            let more : due new ≤ℤ due position.amount +ℤ amount = grind (int_laws, sum, positive) in
            after_call _ (raise_total amount _) IsCovered _
              ((raise_total-IsCovered amount).holds _ (
                h.0.0,
                (
                  h.0.1.0,
                  (grind (int_laws, total-set stake_due user _ s.stakes, h.0.1.1, held, more)),
                ),
              ))
              (λ _ s' q. q);
  }

  reduce_stake-IsCovered :
      (user : Address) (position : StakePosition) (new : ℤ)
      → due new ≤ℤ due position.amount
      → Turns
          (λ s. IsCovered s × (get user s.stakes ≡ some position))
          IsCovered
          (reduce_stake user position new)
  unfolding reduce_stake
  reduce_stake-IsCovered user position new less = record {
    turned = λ s h.
        let held : amount_of stake_due (get user s.stakes) ≡ stake_due position = rw h.1 refl in
        elim (Bool-cases (eqb_ℤ new (pos 0))) [
          | inl zero ↦ rw zero (
            h.0.0,
            (h.0.1.0, (grind (int_laws, total-remove stake_due user s.stakes, h.0.1.1, held))),
          )
          | inr left ↦ rw left (
              after_ok_or _ (checked_mul new (pos (multiplier position.period))) _ _ s λ power _. (
                h.0.0,
                (
                  h.0.1.0,
                  grind (int_laws, total-set stake_due user _ s.stakes, h.0.1.1, held, less),
                ),
              ))
        ];
  }

  pub take_stake-IsCovered :
      (user : Address) (position : StakePosition) (amount : ℤ)
      → due (position.amount -ℤ amount) ≤ℤ due position.amount
      → Turns
          (λ s. IsCovered s × (get user s.stakes ≡ some position))
          IsCovered
          (take_stake user position amount)
  unfolding take_stake
  take_stake-IsCovered user position amount less = record {
    turned = λ s h. after_ok_or _ (checked_sub position.amount amount) _ _ s λ new taken.
        after_call _ (reduce_stake user position new s) IsCovered _
          ((reduce_stake-IsCovered user position new (
              subst (λ n. due n ≤ℤ due position.amount)
                (sym (checked_sub-eq position.amount amount taken).0) less)).turned
            s h)
          (λ _ s' q. (lower_total-IsCovered amount).holds s' q);
  }

  pub charge_stake-IsCovered :
      (user : Address) (amount : ℤ) → pos 1 ≤ℤ amount → Keeps IsCovered (charge_stake user amount)
  unfolding charge_stake
  charge_stake-IsCovered user amount positive = Turns-Keeps (
      Turns-reading (λ s. get user s.stakes) _
        λ position. record {
          turned = λ s h.
              let held : amount_of stake_due (get user s.stakes) ≡ stake_due position =
                rw h.1 refl in
              after_safe_sub _ position.amount amount _ _ s λ new taken.
                let less : due new ≤ℤ due position.amount = grind (int_laws, taken.0, positive) in
                after_safe_sub _ (total_of s) amount _ _ _ λ left lowered. (
                  h.0.0,
                  (
                    h.0.1.0,
                    grind (int_laws, total-set stake_due user _ s.stakes, h.0.1.1, held, less),
                  ),
                );
        })

  module _ (standard : IsStandard t) (N : Store W → Type 0)
      (stable : (w : W) (s : Store W) → N s → N (record s { tokens = w })) where
    pub transfer_in :
        (token' user : Address) (amount : ℤ)
        → user ≢ self
        → Turns {E = StakingError}
            (λ s. (IsCovered s × N s) × (s.token ≡ some token'))
            (λ s. IsCoveredBy amount s × N s)
            (client_transfer t token' user self amount)
    transfer_in token' user amount other = record {
      turned = λ s h. by_outcome s h (t.transfer token' user self amount s.tokens) refl;
    }
      where
        by_outcome :
            (s : Store W)
            → (IsCovered s × N s) × (s.token ≡ some token')
            → (o : Option W) → t.transfer token' user self amount s.tokens ≡ o
            → Post {E = StakingError} (λ s. IsCoveredBy amount s × N s) (settle o s)
        by_outcome s h none moved = tt
        by_outcome s h (some w) moved =
            let same : some token' ≡ some token = sym h.1 ∙ h.0.0.0 in
            let this : token' ≡ token = cc in
            let step : t.transfer token user self amount s.tokens ≡ some w =
              subst (λ k. t.transfer k user self amount s.tokens ≡ some w) this moved in
            let raised = standard.transfer_to token user self amount s.tokens w other step in
            ((h.0.0.0, (h.0.0.1.0, grind (int_laws, h.0.0.1.1, raised))), stable w s h.0.1)

    pub transfer_out :
        (token' user : Address) (amount : ℤ)
        → user ≢ self
        → Turns {E = StakingError}
            (λ s. (IsCovered s × N s) × (s.token ≡ some token'))
            (λ s. IsCoveredBy (pos 0 -ℤ amount) s × N s)
            (client_transfer t token' self user amount)
    transfer_out token' user amount other = record {
      turned = λ s h. by_outcome s h (t.transfer token' self user amount s.tokens) refl;
    }
      where
        by_outcome :
            (s : Store W)
            → (IsCovered s × N s) × (s.token ≡ some token')
            → (o : Option W) → t.transfer token' self user amount s.tokens ≡ o
            → Post {E = StakingError} (λ s. IsCoveredBy (pos 0 -ℤ amount) s × N s) (settle o s)
        by_outcome s h none moved = tt
        by_outcome s h (some w) moved =
            let same : some token' ≡ some token = sym h.1 ∙ h.0.0.0 in
            let this : token' ≡ token = cc in
            let step : t.transfer token self user amount s.tokens ≡ some w =
              subst (λ k. t.transfer k self user amount s.tokens ≡ some w) this moved in
            let lowered =
              standard.transfer_from token self user amount s.tokens w (λ e. other (sym e)) step in
            ((h.0.0.0, (h.0.0.1.0, grind (int_laws, h.0.0.1.1, lowered))), stable w s h.0.1)
