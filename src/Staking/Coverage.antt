-- ===== src/Staking/Coverage.antt =====
-- The tokens of packages/staking/src/contract.rs over any history of calls.
use moistello_contracts.Prelude.{
  ℕ, ℤ, pos, ◌-ℤ◌, ◌≤ℤ◌, ◌≡◌, ◌≢◌, sym, subst, true, false, Bool-cases, inl, inr, leb_ℤ, ltb_ℤ, ltb,
  some, refl, List, [], ◌∷◌, int_laws, arith,
}
use moistello_contracts.Soroban.Contract.{
  is_some, Address, Env, M, ◌>>=◌, ◌>>◌, load, modify, fail_if,
}
use moistello_contracts.Soroban.Outcome.{commit_keeps}
use moistello_contracts.Soroban.Keeps.{
  Keeps, keeping, Keeps-bind, Keeps-map_err, Keeps-ok_or, Keeps-gets, Keeps-pure, Keeps-fail_if,
  Keeps-modify, Keeps-require, Keeps-given, Keeps-unless,
}
use moistello_contracts.Soroban.Turns.{
  Turns, turning, Turns-first, Keeps-reading, Keeps-through, Turns-Keeps, Turns-reading,
  Turns-through, Turns-last, Turns-unless,
}
use moistello_contracts.Soroban.Map.{get, set, set-All, address_key}
use moistello_contracts.Soroban.Totals.{remove, remove-All, get-All, total-remove, amount_of}
use moistello_contracts.Soroban.Yields.{Each}
use moistello_contracts.Common.Pause.{Keeps-when_not_paused}
use moistello_contracts.Common.Pause
use moistello_contracts.Common.Reentrancy.{Keeps-guarded}
use moistello_contracts.Common.TokenTransfer.{TokenLedger, IsStandard, client_transfer}
use moistello_contracts.Staking.Types.{
  slash_executed, insufficient_contract_balance, claimed, slash_notice_period_active, StakingPeriod,
  min_stake_amount, from_u32, UnbondingPosition, SlashNotice, StakingError, StakingEvent,
  not_initialized, publish, Store, staking_ledger, staking_lock, staking_pause,
}
use moistello_contracts.Staking.Positions.{
  when_not_paused, require_no_stake, open_position, grow_stake,
}
use moistello_contracts.Staking.Positions
use moistello_contracts.Staking.Slashing.{slash_amount_of, take_stake, charge_stake, drop_notice}
use moistello_contracts.Staking.Slashing
use moistello_contracts.Staking.Admin
use moistello_contracts.Staking.Calls.{Call, IsOfToken, apply, step, run}
use moistello_contracts.Staking.History.{gate}
use moistello_contracts.Staking.Solvency.{
  IsPositive, due, unbonding_due, IsCovered, IsCoveredBy, open_position-IsCovered,
  start_unbonding-IsCovered, grow_stake-IsCovered, take_stake-IsCovered, charge_stake-IsCovered,
  transfer_in, transfer_out,
}

slash_less :
    (shortfall amount : ℤ)
    → leb_ℤ shortfall (pos 0) ≡ false
    → due (amount -ℤ slash_amount_of shortfall amount) ≤ℤ due amount
slash_less shortfall amount positive = elim (Bool-cases (leb_ℤ amount shortfall)) [
  | inl all ↦
      let taken : slash_amount_of shortfall amount ≡ amount = rw all refl in
      rw taken (grind int_laws)
  | inr part ↦
      let taken : slash_amount_of shortfall amount ≡ shortfall = rw part refl in
      let above : pos 0 ≤ℤ shortfall = ground arith in rw taken (grind (int_laws, above))
]

module _ {W : Type 0} (t : TokenLedger W) (standard : IsStandard t) (token : Address) (env : Env)
    (outside : env.authorized env.current_contract ≡ false) where
  abbrev Covered : Store W → Type 0
  Covered = IsCovered t token env.current_contract

  stranger : (user : Address) → env.authorized user ≡ true → user ≢ env.current_contract
  stranger user signed same =
      let own : env.authorized env.current_contract ≡ true =
        subst (λ a. env.authorized a ≡ true) same signed in
      cc

  unpaused :
      (k : Unit {0} → M (Store W) StakingError (Unit {0}))
      → Keeps Covered (k tt)
      → Keeps Covered (when_not_paused >>= k)
  unfolding when_not_paused
  unpaused k h = Keeps-bind (Keeps-map_err _ Keeps-when_not_paused) (λ _. h)

  stake_rest :
      (user : Address) (amount : ℤ) (period : StakingPeriod) (e : StakingEvent)
      → user ≢ env.current_contract
      → pos 0 ≤ℤ amount
      → Keeps {S = Store W} Covered (do
        require_no_stake user
        token ← load (λ s. s.token) not_initialized
        client_transfer t token user env.current_contract amount
        open_position env user amount period
        publish e)
  stake_rest user amount period e other positive = Keeps-through _ (gate t Covered user) λ _.
      Turns-reading (λ s. s.token) _
        λ token'.
          Turns-through _
            (transfer_in t token env.current_contract standard
              (λ s. is_some (get user s.stakes) ≡ false) (λ w s h. h) token' user amount other)
            (λ _. search (turning, open_position-IsCovered t token env.current_contract) depth 6)

  stake-IsCovered :
      (user : Address) (amount : ℤ) (period_months : ℕ)
      → Keeps Covered (Positions.stake t env user amount period_months)
  unfolding Positions.stake
  stake-IsCovered user amount period_months = unpaused _ (
      Keeps-guarded _ (λ b s h. h)
        (Keeps-given (env.authorized user) _ λ signed.
          Keeps-unless (ltb_ℤ amount min_stake_amount) _ _ λ enough.
            Keeps-bind (Keeps-ok_or (from_u32 period_months) _)
              λ period. stake_rest user amount period _ (stranger user signed) (ground arith)))

  unstake-IsCovered : (user : Address) → Keeps Covered (Positions.unstake env user)
  unfolding Positions.unstake when_not_paused
  unstake-IsCovered user =
      search (turning, Keeps-reading, Keeps-when_not_paused, start_unbonding-IsCovered) depth 14

  paid_out :
      (user : Address) (position : UnbondingPosition)
      → Turns {S = Store W}
          (λ s.
            IsCoveredBy t token env.current_contract (pos 0 -ℤ position.amount) s
            × (get user s.unbonding ≡ some position))
          Covered
          (do
            modify (λ s. record s { unbonding = remove user s.unbonding })
            publish (claimed user position.amount))
  paid_out user position = record {
    turned = λ s h.
        let owing : amount_of unbonding_due (get user s.unbonding) ≡ unbonding_due position =
          rw h.1 refl in
        (
          h.0.0,
          (h.0.1.0, grind (int_laws, total-remove unbonding_due user s.unbonding, h.0.1.1, owing)),
        );
  }

  claim-IsCovered : (user : Address) → Keeps Covered (Positions.claim t env user)
  unfolding Positions.claim
  claim-IsCovered user = unpaused _ (
      Keeps-guarded _ (λ b s h. h)
        (Keeps-given (env.authorized user) _ λ signed.
          Keeps-reading (λ s. get user s.unbonding) _
            λ position. Turns-last _ (Keeps-fail_if _ _) λ _.
              Turns-reading (λ s. s.token) _
                λ token'.
                  Turns-last _ (Keeps-gets (λ s. t.balance token' env.current_contract s.tokens))
                    λ held.
                      Turns-last _
                        (Keeps-fail_if (ltb_ℤ held position.amount) insufficient_contract_balance)
                        λ _.
                          Turns-through _
                            (transfer_out t token env.current_contract standard
                              (λ s. get user s.unbonding ≡ some position) (λ w s h. h) token' user
                              position.amount (stranger user signed))
                            (λ _. paid_out user position)))

  top_up-IsCovered :
      (user : Address) (amount : ℤ) → Keeps Covered (Positions.top_up t env user amount)
  unfolding Positions.top_up
  top_up-IsCovered user amount = unpaused _ (
      Keeps-guarded _ (λ b s h. h)
        (Keeps-given (env.authorized user) _ λ signed.
          Keeps-unless (leb_ℤ amount (pos 0)) _ _ λ positive.
            Keeps-reading (λ s. get user s.stakes) _
              λ position. Turns-last _ (Keeps-fail_if _ _) λ _.
                Turns-reading (λ s. s.token) _
                  λ token'.
                    Turns-through _
                      (transfer_in t token env.current_contract standard
                        (λ s. get user s.stakes ≡ some position) (λ w s h. h) token' user amount
                        (stranger user signed))
                      (λ _.
                        grow_stake-IsCovered t token env.current_contract env user amount position
                          (ground arith))))

  unpaused_first : Keeps Covered when_not_paused
  unfolding when_not_paused
  unpaused_first = Keeps-map_err _ Keeps-when_not_paused

  slash-IsCovered :
      (admin user : Address) (shortfall : ℤ)
      → Keeps Covered (Slashing.slash env admin user shortfall)
  unfolding Slashing.slash Slashing.require_admin Slashing.check_admin
  slash-IsCovered admin user shortfall = Keeps-bind (unpaused_first) λ _.
      Keeps-bind (search keeping depth 8) λ _.
        Keeps-reading (λ s. get user s.stakes) _
          λ position. Turns-unless (leb_ℤ shortfall (pos 0)) _ _ λ positive.
            Turns-first _
              (take_stake-IsCovered t token env.current_contract user position
                (slash_amount_of shortfall position.amount)
                (slash_less shortfall position.amount positive))
              (λ _. search keeping depth 8)

  noted :
      (user executor : Address) (amount : ℤ) (notice_until : ℕ)
      → leb_ℤ amount (pos 0) ≡ false
      → (s : Store W) → Covered s
      → Covered (record s {
        slash_notices =
            set user
              (record { amount = amount; notice_until = notice_until; executor = executor })
              s.slash_notices;
      })
  noted user executor amount notice_until positive s h =
      (h.0, (set-All IsPositive user _ s.slash_notices (ground arith) h.1.0, h.1.1))

  drop_notice-IsCovered : (user : Address) → Keeps {E = StakingError} Covered (drop_notice user)
  drop_notice-IsCovered user =
      Keeps-modify λ s h. (h.0, (remove-All IsPositive user s.slash_notices h.1.0, h.1.1))

  charged :
      (admin user : Address) (notice : SlashNotice)
      → IsPositive notice
      → Keeps Covered (do
        fail_if (ltb env.timestamp notice.notice_until) slash_notice_period_active
        charge_stake user notice.amount
        drop_notice user
        publish (slash_executed admin user notice.amount))
  charged admin user notice positive = Keeps-bind (Keeps-fail_if _ _) λ _.
      Keeps-bind (charge_stake-IsCovered t token env.current_contract user notice.amount positive)
        λ _.
          Keeps-bind {f = λ _. publish (slash_executed admin user notice.amount)}
            (drop_notice-IsCovered user) (λ _. search keeping depth 4)

  create_slash_notice-IsCovered :
      (admin user : Address) (amount : ℤ)
      → Keeps Covered (Slashing.create_slash_notice env admin user amount)
  unfolding Slashing.create_slash_notice Slashing.require_admin Slashing.check_admin
  create_slash_notice-IsCovered admin user amount = unpaused _ (
      Keeps-bind (search keeping depth 8)
        λ _. Keeps-unless (leb_ℤ amount (pos 0)) _ _ λ positive. search (keeping, noted) depth 14)

  execute_slash-IsCovered :
      (admin user : Address) → Keeps Covered (Slashing.execute_slash env admin user)
  unfolding Slashing.execute_slash Slashing.require_admin Slashing.check_admin
  execute_slash-IsCovered admin user = unpaused _ (
      Keeps-bind (search keeping depth 8) λ _. Turns-Keeps (
        Turns-reading (λ s. get user s.slash_notices) _
          λ notice. record {
            turned = λ s h.
                let positive = get-All IsPositive user s.slash_notices notice h.0.1.0 h.1 in
                (charged admin user notice positive).holds s h.0;
          }))

  init-IsCovered : (admin : Address) → Keeps Covered (Positions.init env admin token)
  unfolding Positions.init
  init-IsCovered admin =
      Keeps-bind (Keeps-require (env.authorized admin)) λ _. Keeps-modify λ s h. (refl, h.1)

  pub apply-IsCovered : (c : Call) → IsOfToken token (env, c) → Keeps Covered (apply t env c)
  unfolding apply Admin.pause Admin.unpause Admin.update_admin Admin.get_voting_power
      Slashing.set_slash_notice_period Slashing.cancel_slash Slashing.require_admin
      Slashing.check_admin Pause.pause Pause.unpause when_not_paused
  apply-IsCovered (Call.init admin named) same =
      subst (λ a. Keeps Covered (Positions.init env admin a)) (sym same) (init-IsCovered admin)
  apply-IsCovered (Call.stake user amount period_months) same =
      stake-IsCovered user amount period_months
  apply-IsCovered (Call.unstake user) same = unstake-IsCovered user
  apply-IsCovered (Call.claim user) same = claim-IsCovered user
  apply-IsCovered (Call.top_up user amount) same = top_up-IsCovered user amount
  apply-IsCovered (Call.slash admin user shortfall) same =
      Keeps-bind (slash-IsCovered admin user shortfall) (λ _. Keeps-pure tt)
  apply-IsCovered (Call.create_slash_notice admin user amount) same =
      create_slash_notice-IsCovered admin user amount
  apply-IsCovered (Call.execute_slash admin user) same = execute_slash-IsCovered admin user
  apply-IsCovered c same = search (keeping, Keeps-when_not_paused, drop_notice-IsCovered) depth 20

-- The call is made to the contract at the address, which signs nothing itself.
abbrev pub IsOutside : Address → Env × Call → Type 0
IsOutside self call = (call.0.current_contract ≡ self) × (call.0.authorized self ≡ false)

module _ {W : Type 0} (t : TokenLedger W) (standard : IsStandard t) (token self : Address) where
  -- However the contract is called, failed calls and calls of `init` included, if the token contract
  -- keeps to its interface, the contract's own address signs no call and no call of `init` names
  -- another token: from a storage that names this token, in which every slash notice is for a
  -- positive amount and the contract holds its stakes and unbonding positions in the token (what is
  -- below zero counts as nothing), it reaches only such storages.
  pub run-IsCovered :
      (cs : List (Env × Call)) (s : Store W)
      → Each (IsOutside self) cs
      → Each (IsOfToken token) cs
      → IsCovered t token self s
      → IsCovered t token self (run t cs s)
  unfolding run step
  run-IsCovered [] s outside same h = h
  run-IsCovered ((env, c) ∷ cs) s outside same h =
      run-IsCovered cs (step t env c s) outside.1 same.1 (
        commit_keeps (IsCovered t token self) s (apply t env c s) h (
          (subst (λ a. Keeps (IsCovered t token a) (apply t env c)) outside.0.0
              (apply-IsCovered t standard token env
                (subst (λ a. env.authorized a ≡ false) (sym outside.0.0) outside.0.1) c
                same.0)).holds
            s h))
