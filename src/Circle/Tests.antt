-- ===== src/Circle/Tests.antt =====
-- Runs of the circle contract, with a token ledger of one token.
mod Payouts
mod Payments
mod Ledger
use moistello_contracts.Prelude.{
  ℕ, ℤ, pos, ◌≡◌, refl, ◌≤◌, ◌↔◌, List, [], ◌∷◌, true, arith, ◌+ℤ◌, ◌-ℤ◌, ltb_ℤ, ◌||◌, some, none,
  if◌then◌else◌, ◌==◌, ◌&&◌, ◌*ℤ◌, ◌/ℤ◌, checked_mul, checked_div, checked_add,
}
use moistello_contracts.Soroban.Result.{Result, err, ok}
use moistello_contracts.Soroban.Contract.{Address, Env, unwrap_or}
use moistello_contracts.Soroban.Outcome.{Post, Returns}
use moistello_contracts.Soroban.Map.{Map, get, get_or, set, address_key, pair_key}
use moistello_contracts.Common.TokenTransfer.{TokenLedger}
use moistello_contracts.Common.Math.{
  calculate_penalty, calculate_percentage, safe_mul, safe_div, safe_add,
}
use moistello_contracts.Reputation.Scoring.{record_on_time_payment}
use moistello_contracts.Circle.Streaks.{advance_streaks}
use moistello_contracts.Circle.Types.{
  CircleError, Circle, Member, Store, payment_deadline_passed, circle_ledger, circle_pause,
  circle_lock,
}
use moistello_contracts.Circle.Rounds.{
  contribution_window_closed, round_contributed_total, round_contributors, derived_total,
  derived_contributors, contribution_log, round_forfeit_time, round_contribution_deadline,
}
use moistello_contracts.Circle.Contribute.{
  payment_timing, contribute, take_contribution, record_contribution, reward_on_time,
  charge_late_penalty, apply_penalty, record_round_fee,
}
use moistello_contracts.Circle.Join.{new_member}
use moistello_contracts.Circle.Sweep.{strike_non_contributors}
use moistello_contracts.Circle.Health.{calculate_health_score}
use moistello_contracts.Circle.Calls.{Call, run}
use moistello_contracts.Circle.Accounts.{IsAccounted}
use moistello_contracts.Circle.History.{run-IsAccounted}
use moistello_contracts.Circle.Window.{payment_timing_iff, contribute_closed}
use moistello_contracts.Circle.Strikes.{sweep_shuts_out}
use moistello_contracts.Circle.Seats.{IsSeated}
use moistello_contracts.Circle.Membership.{run-IsSeated}
use moistello_contracts.Circle.Ratings.{calculate_health_score_lem}

abbrev pub Wallets : Type 0
Wallets = Map Address ℤ

abbrev pub wallets : TokenLedger Wallets
wallets = record {
  balance = λ token account w. get_or (pos 0) account w;
  transfer = λ token from to amount w.
      if ltb_ℤ amount (pos 0) || ltb_ℤ (get_or (pos 0) from w) amount
      then none
      else let debited = set from (get_or (pos 0) from w -ℤ amount) w in
        some (set to (get_or (pos 0) to debited +ℤ amount) debited);
}

abbrev pub savings : Circle
savings = record {
  id = 9;
  token = 8;
  name = "savings";
  organizer = 1;
  factory = 7;
  contribution_amount = pos 100;
  max_members = 2;
  member_count = 0;
  payout_type = 1;
  total_rounds = 2;
  current_round = 0;
  status = 0;
  started_at = 0;
  created_at = 0;
  contribution_deadline_seconds = 1000;
  min_moi_score = 0;
  collateral_amount = pos 50;
  penalty_bps = 500;
  grace_period_seconds = 200;
  max_strikes = 3;
  payout_bitmap = 0;
  total_payouts = pos 0;
  total_fees = pos 0;
  slug = "savings";
  health_score = 100;
  max_withdrawal_per_tx = pos 0;
  daily_withdrawal_limit = pos 0;
  min_duration_seconds = 0;
}

abbrev pub opened_with : {W : Type 0} → W → Store W
opened_with tokens = record {
  circle = some savings;
  admin = some 1;
  treasury = some 6;
  members = none;
  contributions = none;
  bids = none;
  votes = none;
  allowlist = none;
  streaks = none;
  payouts = none;
  fee_bps = none;
  oracle_contract = none;
  fallback_oracle = none;
  auction_winner = [];
  round_config_snapshot = [];
  round_fee_ledger = [];
  round_strikes = [];
  round_total_contributed = [];
  round_contributors = [];
  member_contributed = [];
  member_status = [];
  payout_scheduled = [];
  contribs = none;
  registry = record {
    member_score = [];
    streak = [];
    completions = [];
    defaults = [];
    member_log = [];
    last_round = [];
  };
  vrf = record {
    admin_key = none;
    salt = some (7 ∷ []);
    counter = some 0;
    owner = some 1;
    pending_key = none;
    pending_at = none;
    nonce = none;
    events = [];
  };
  paused_flag = none;
  lock = none;
  events = [];
  tokens = tokens;
}

abbrev pub opened : Store Wallets
opened = opened_with ((1, pos 1000) ∷ (2, pos 1000) ∷ [])

abbrev pub at : ℕ → Env
at now = record { authorized = λ a. true; current_contract = 9; sequence = 1; timestamp = now }

-- Both members join at time 10 and the first pays twice, the second time in vain; the second pays
-- during the grace period.
abbrev history : List (Env × Call)
history =
    (at 10, Call.join 1)
    ∷ (at 10, Call.join 2)
    ∷ (at 20, Call.contribute 1 (pos 100) 0)
    ∷ (at 30, Call.contribute 1 (pos 100) 0)
    ∷ (at 1100, Call.contribute 2 (pos 100) 0)
    ∷ []

-- A payment on time and one in the grace period, of which 5 % go to the treasury.
abbrev paid : Result CircleError (Unit {0} × Store Wallets)
paid = take_contribution wallets (at 20) savings 1 (pos 100) 0 opened

paid_total : Returns (λ s. round_contributed_total s 0 ≡ pos 100) paid
unfolding take_contribution record_contribution reward_on_time payment_timing get set ◌+ℤ◌ ◌-ℤ◌
    round_contributed_total record_on_time_payment advance_streaks ◌/ℤ◌
paid_total = refl

abbrev paid_late : Result CircleError (Unit {0} × Store Wallets)
paid_late = take_contribution wallets (at 1100) savings 2 (pos 100) 0 opened

paid_late_tokens : Returns (λ s. get 6 s.tokens ≡ some (pos 5)) paid_late
unfolding take_contribution record_contribution reward_on_time payment_timing get set ◌+ℤ◌ ◌-ℤ◌
    charge_late_penalty apply_penalty record_round_fee calculate_penalty calculate_percentage
    safe_mul safe_div safe_add checked_mul checked_div checked_add ◌*ℤ◌ ◌/ℤ◌
paid_late_tokens = refl

opened-IsAccounted : IsAccounted opened
unfolding get
opened-IsAccounted = record {
  totals = λ r. refl;
  contributors = λ r. refl;
  once = λ m r. omega arith;
}

run-IsAccounted_example : IsAccounted (run wallets history opened)
run-IsAccounted_example = run-IsAccounted wallets history opened opened-IsAccounted

payment_timing_iff_example :
    (payment_timing (at 1201) savings ≡ err payment_deadline_passed)
    ↔ (contribution_window_closed (at 1201) savings ≡ true)
payment_timing_iff_example = payment_timing_iff (at 1201) savings

savings_closed : contribution_window_closed (at 1201) savings ≡ true
unfolding contribution_window_closed round_forfeit_time round_contribution_deadline
savings_closed = refl

contribute_closed_example : Post (λ _. ⊥) (contribute wallets (at 1201) 2 (pos 100) 0 opened)
contribute_closed_example =
    contribute_closed wallets (at 1201) savings 2 (pos 100) 0 opened refl savings_closed

abbrev pub both : List Member
both = new_member 1 0 10 ∷ new_member 2 1 10 ∷ []

sweep_shuts_out_example :
    Post
      (λ _. ⊥)
      (contribute wallets
        (at 1300)
        2
        (pos 100)
        0
        (strike_non_contributors (at 1250) savings 0 (1 ∷ []) both opened))
sweep_shuts_out_example =
    sweep_shuts_out wallets (at 1250) (at 1300) savings 0 (1 ∷ []) both opened 2 (pos 100) refl

calculate_health_score_lem_example :
    let health = calculate_health_score both [] in
    ((health.on_time_rate_bps ≤ 10000)
      × ((health.completion_rate_bps ≤ 10000) × (health.member_retention_bps ≤ 10000)))
    × (health.score ≡ (
        if health.on_time_rate_bps == 10000
          && (health.completion_rate_bps == 10000 && health.member_retention_bps == 10000)
        then 1
        else 0))
calculate_health_score_lem_example = calculate_health_score_lem both []

opened-IsSeated : IsSeated opened
opened-IsSeated = record { numbered = tt; distinct = tt; bounded = omega arith; counted = refl }

run-IsSeated_example : IsSeated (run wallets history opened)
run-IsSeated_example = run-IsSeated wallets history opened opened-IsSeated
