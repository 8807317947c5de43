-- ===== src/Staking/Slashing.antt =====
-- The slashing of packages/staking/src/contract.rs: at once, and after a notice.
use moistello_contracts.Prelude.{
  ℕ, ℤ, pos, negsuc, ◌-◌, ◌%◌, ◌^◌, ◌*ℤ◌, not, ◌==◌, leb, ltb, ltb_ℤ, leb_ℤ, eqb_ℤ, if◌then◌else◌,
  Option, some, checked_sub, checked_mul, checked_add_u64, as_i128, u128_max,
}
use moistello_contracts.Soroban.Contract.{
  is_some, Address, Env, M, ◌>>=◌, ◌>>◌, pure, load, gets, modify, fail_if, ok_or, or_err, if_else,
  require_auth, unwrap_or,
}
use moistello_contracts.Soroban.Map.{get, set, address_key}
use moistello_contracts.Soroban.Totals.{remove}
use moistello_contracts.Common.Math.{safe_sub}
use moistello_contracts.Staking.Types.{
  multiplier, StakePosition, StakingError, not_initialized, unauthorized, invalid_amount,
  insufficient_balance, no_active_stake, overflow, slash_notice_period_active,
  no_active_slash_notice, slash_notice_expired, slash_notice_created, slash_cancelled,
  slash_executed, slashed, SlashNotice, Store, Op, publish,
}
use moistello_contracts.Staking.Positions.{
  when_not_paused, total_of, put_stake, drop_stake, lower_total,
}

-- The last 128 bits of a product, by which a plain `*` wraps.
abbrev pub wrap_i128 : ℤ → ℤ
wrap_i128 (pos n) = as_i128 (n % 2 ^ 128)
wrap_i128 (negsuc n) = as_i128 (u128_max - n % 2 ^ 128)

-- `min(shortfall, stake)`
abbrev pub slash_amount_of : ℤ → ℤ → ℤ
slash_amount_of shortfall amount = if leb_ℤ amount shortfall then amount else shortfall

module _ {W : Type 0} where
  -- The tests that the caller is the administrator.
  unfoldable pub check_admin : Address → Op W
  check_admin admin = do
    stored_admin ← load (λ s. s.admin) not_initialized
    fail_if (not (admin == stored_admin)) unauthorized

  unfoldable pub require_admin : Env → Address → Op W
  require_admin env admin = do check_admin admin; require_auth env admin

  -- The stake with what is left, or none if nothing is.
  unfoldable pub reduce_stake : Address → StakePosition → ℤ → Op W
  reduce_stake user position new_amount = if_else (eqb_ℤ new_amount (pos 0)) (drop_stake user) (do
    voting_power ← ok_or (checked_mul new_amount (pos (multiplier position.period))) overflow
    put_stake user (record position { amount = new_amount; voting_power = voting_power }))

  unfoldable pub take_stake : Address → StakePosition → ℤ → Op W
  take_stake user position slash_amount = do
    new_amount ← ok_or (checked_sub position.amount slash_amount) insufficient_balance
    reduce_stake user position new_amount
    lower_total slash_amount

  unfoldable pub slash : Env → Address → Address → ℤ → M (Store W) StakingError ℤ
  slash env admin user shortfall = do
    when_not_paused
    require_admin env admin
    position ← load (λ s. get user s.stakes) no_active_stake
    fail_if (leb_ℤ shortfall (pos 0)) invalid_amount
    let slash_amount = slash_amount_of shortfall position.amount
    take_stake user position slash_amount
    publish (slashed user slash_amount shortfall)
    pure slash_amount

  unfoldable pub get_slash_notice_period : Store W → ℕ
  get_slash_notice_period s = unwrap_or 86400 s.slash_notice_period

  unfoldable pub set_slash_notice_period : Env → Address → ℕ → Op W
  set_slash_notice_period env admin period_seconds = do
    when_not_paused
    require_admin env admin
    modify (λ s. record s { slash_notice_period = some period_seconds })

  unfoldable pub get_slash_notice : Store W → Address → Option SlashNotice
  get_slash_notice s user = get user s.slash_notices

  unfoldable pub create_slash_notice : Env → Address → Address → ℤ → Op W
  create_slash_notice env admin user amount = do
    when_not_paused
    require_admin env admin
    fail_if (leb_ℤ amount (pos 0)) invalid_amount
    position ← load (λ s. get user s.stakes) no_active_stake
    fail_if (ltb_ℤ position.amount amount) invalid_amount
    notice ← gets (λ s. get user s.slash_notices)
    fail_if (is_some notice) slash_notice_period_active
    notice_period ← gets get_slash_notice_period
    notice_until ← ok_or (checked_add_u64 env.timestamp notice_period) overflow
    modify (λ s. record s {
      slash_notices =
          set user (record { amount = amount; notice_until = notice_until; executor = admin })
            s.slash_notices;
    })
    publish (slash_notice_created admin user amount notice_until)

  abbrev pub drop_notice : Address → Op W
  drop_notice user = modify (λ s. record s { slash_notices = remove user s.slash_notices })

  unfoldable pub cancel_slash : Env → Address → Address → Op W
  cancel_slash env admin user = do
    when_not_paused
    require_admin env admin
    notice ← load (λ s. get user s.slash_notices) no_active_slash_notice
    fail_if (leb notice.notice_until env.timestamp) slash_notice_expired
    drop_notice user
    publish (slash_cancelled admin user notice.amount)

  -- `execute_slash` reports a total out of range as an invalid amount.
  unfoldable pub charge_stake : Address → ℤ → Op W
  charge_stake user slash_amount = do
    position ← load (λ s. get user s.stakes) no_active_stake
    new_amount ← or_err (safe_sub position.amount slash_amount) invalid_amount
    put_stake user (record position {
      amount = new_amount;
      voting_power = wrap_i128 (new_amount *ℤ pos (multiplier position.period));
    })
    total ← gets total_of
    new_total ← or_err (safe_sub total slash_amount) invalid_amount
    modify (λ s. record s { total_staked = some new_total })

  unfoldable pub execute_slash : Env → Address → Address → Op W
  execute_slash env admin user = do
    when_not_paused
    require_admin env admin
    notice ← load (λ s. get user s.slash_notices) no_active_slash_notice
    fail_if (ltb env.timestamp notice.notice_until) slash_notice_period_active
    charge_stake user notice.amount
    drop_notice user
    publish (slash_executed admin user notice.amount)
