-- ===== src/Circle/Tests/Payments.antt =====
-- Runs of a payout.
use moistello_contracts.Prelude.{
  ℤ, pos, ◌≡◌, ◌≢◌, refl, ◌==◌, ◌+ℤ◌, ◌-ℤ◌, ◌≤ℤ◌, [], ◌∷◌, Option, some, none, if◌then◌else◌, arith,
  Bool-cases, inl, inr, checked_add, checked_sub, checked_mul, checked_div, ◌*ℤ◌, ◌/ℤ◌,
}
use moistello_contracts.Soroban.Result.{Result}
use moistello_contracts.Soroban.Contract.{Address}
use moistello_contracts.Soroban.Outcome.{Gives, Post, Returns}
use moistello_contracts.Common.Coins.{Coins, coins, coins-IsStandard}
use moistello_contracts.Circle.Types.{Store, Circle, CircleError, status_active, payout_fixed}
use moistello_contracts.Circle.Externals.{
  Externals, ask_primary, deposit_protocol_fee, get_yield_rate,
}
use moistello_contracts.Circle.Distribution.{Weights, Paid, pay_pool}
use moistello_contracts.Circle.Settlement.{trigger_payout}
use moistello_contracts.Circle.Resolve.{resolve_recipient}
use moistello_contracts.Circle.Contribute
use moistello_contracts.Circle.Distribution
use moistello_contracts.Circle.Health
use moistello_contracts.Circle.Payout
use moistello_contracts.Circle.Resolve
use moistello_contracts.Circle.Rounds
use moistello_contracts.Circle.Settlement
use moistello_contracts.Common.Math
use moistello_contracts.Soroban.Map.{get, set}
use moistello_contracts.Circle.Draws.{PaysDue, resolve_recipient-PaysDue}
use moistello_contracts.Circle.Payments.{held}
use moistello_contracts.Circle.Pool.{fee_charged, pay_pool-pays}
use moistello_contracts.Circle.Advance.{IsInRound, trigger_payout-IsInRound}
use moistello_contracts.Circle.Tests.{savings, both, opened_with, at}

-- A treasury takes its fee in the token 8, unless it is the circle itself.
abbrev take_fee : Address → Address → ℤ → Coins → Option Coins
take_fee treasury circle_id amount w =
    if treasury == circle_id then none else coins.transfer 8 circle_id treasury amount w

abbrev outside : Externals Coins
outside = record {
  tokens = coins;
  sha256 = λ bytes. bytes;
  sha256_config = λ config. 0;
  yield_rate = λ oracle round w. some (pos 3);
  deposit_fee = take_fee;
}

takes_fee :
    (treasury : Address) (amount : ℤ) (w w' : Coins)
    → take_fee treasury 9 amount w ≡ some w'
    → coins.balance 8 9 w' ≡ coins.balance 8 9 w -ℤ amount
takes_fee treasury amount w w' taken = elim (Bool-cases (treasury == 9)) [
  | inl same ↦ let nothing : none ≡ some w' = rw same at taken in cc
  | inr other ↦
      let moved = rw other at taken in
      coins-IsStandard.transfer_from 8 9 treasury amount w w' (λ e. ground (arith, e)) moved
]

abbrev settled : Store Coins
settled = record (opened_with (((8, 9), pos 1000) ∷ [])) { members = some both }

one_not_circle : 1 ≢ savings.id
one_not_circle e = omega (arith, e)

two_not_circle : 2 ≢ savings.id
two_not_circle e = omega (arith, e)

abbrev weights : Weights
weights = record { total = 10; by_member = (1, 4) ∷ (2, 6) ∷ [] }

abbrev unpaid : Paid
unpaid = record { distributed = pos 0; payouts = []; members = both }

pay_pool-pays_example :
    Gives
      (λ paid' s'.
        ((held outside coins-IsStandard savings s' +ℤ paid'.distributed)
            +ℤ fee_charged (pos 10) settled.treasury
          ≡ held outside coins-IsStandard savings settled +ℤ pos 0)
        × (pos 190 ≤ℤ paid'.distributed))
      (pay_pool outside savings 0 100 1 (pos 190) (pos 10) weights unpaid settled)
pay_pool-pays_example =
    pay_pool-pays outside coins-IsStandard savings takes_fee 0 100 1 (pos 190) (pos 10) weights
      unpaid settled (one_not_circle, (two_not_circle, tt)) one_not_circle

resolve_recipient-PaysDue_example :
    Gives (PaysDue savings settled) (resolve_recipient outside.sha256 savings 0 settled)
resolve_recipient-PaysDue_example = resolve_recipient-PaysDue outside.sha256 savings 0 settled

-- A circle in its first round, for which both members have paid.
abbrev running : Circle
running = record savings { status = status_active; payout_type = payout_fixed }

abbrev collected : Store Coins
collected = record settled {
  circle = some running;
  round_total_contributed = (0, pos 200) ∷ [];
  round_contributors = (0, 1 ∷ 2 ∷ []) ∷ [];
  fee_bps = some 100;
}

abbrev paid_out : Result CircleError (Unit {0} × Store Coins)
paid_out = trigger_payout outside (at 2000) 1 0 collected

trigger_payout-IsInRound_example : Post (IsInRound outside 1) paid_out
trigger_payout-IsInRound_example =
    trigger_payout-IsInRound outside (at 2000) 1 running 0 collected refl

-- The first member is paid the pool of 200 less the fee of 1 %.
paid_out_succeeds :
    Returns
      (λ s. (s.tokens ≡ ((8, 9), pos 800) ∷ ((8, 6), pos 2) ∷ ((8, 1), pos 198) ∷ []))
      paid_out
unfolding Settlement.trigger_payout Settlement.require_organizer_or_admin
    Settlement.trigger_payout_internal Settlement.check_round Settlement.check_awaited
    Settlement.close_round Settlement.end_round Settlement.mark_paid Settlement.mark_recipient
    Settlement.settle_pool Settlement.write_round Contribute.when_not_paused
    Contribute.record_round_fee Resolve.resolve_recipient Payout.resolve_fixed Payout.is_paid
    Rounds.contribution_window_closed Rounds.round_forfeit_time Rounds.round_contribution_deadline
    Rounds.round_contributed_total Rounds.round_contributors Distribution.credit_received
    Distribution.distribute Distribution.pay_account Distribution.pay_dust Distribution.pay_fee
    Distribution.pay_pool Distribution.pay_positive deposit_protocol_fee get_yield_rate ask_primary
    Health.calculate_health_score Health.rate_bps Health.weighted_score Math.apply_fee
    Math.calculate_percentage Math.safe_mul Math.safe_div Math.safe_sub Math.safe_add checked_add
    checked_sub checked_mul checked_div ◌*ℤ◌ ◌/ℤ◌ ◌+ℤ◌ ◌-ℤ◌ get set
paid_out_succeeds = refl
