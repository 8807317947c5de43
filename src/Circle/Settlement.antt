-- ===== src/Circle/Settlement.antt =====
-- `trigger_payout`, `trigger_payout_internal`, `check_contribution_deadline` and `schedule_payout` of
-- packages/circle/src/contract.rs.
use moistello_contracts.Prelude.{
  ℕ, ℤ, pos, ◌-◌, ltb_ℤ, leb_ℤ, ◌&&◌, not, ◌==◌, leb, ltb, if◌then◌else◌, none, some, List, [], ◌∷◌,
  push_back, checked_add_u32, ◌+◌, ◌^◌, ◌%◌, true,
}
use moistello_contracts.Soroban.Contract.{
  Address, Env, M, ◌>>=◌, ◌>>◌, pure, load, gets, modify, fail_if, ok_or, or_err, only_if, if_else,
  require_auth, unwrap_or,
}
use moistello_contracts.Soroban.Map.{set, address_key}
use moistello_contracts.Common.Math.{safe_add, apply_fee}
use moistello_contracts.Common.Reentrancy.{guarded}
use moistello_contracts.Common.TokenTransfer.{client_transfer}
use moistello_contracts.Reputation.Scoring.{record_circle_completion}
use moistello_contracts.Circle.Types.{
  Circle, Member, PayoutRecipient, CircleError, not_initialized, not_active, round_not_current,
  invalid_amount, invalid_round, unauthorized, circle_duration_too_short,
  invalid_contribution_round, deadline_not_passed, reentrant_call, circle_health_updated,
  payout_executed, circle_completed, Store, Op, publish, circle_lock, circle_ledger, status_active,
  status_completed, member_active,
}
use moistello_contracts.Circle.Rounds.{
  contribution_log, round_contributors, round_contributed_total, contribution_window_closed,
  active_members_awaiting,
}
use moistello_contracts.Circle.Contribute.{when_not_paused, find_member}
use moistello_contracts.Circle.Sweep.{strike_non_contributors}
use moistello_contracts.Circle.Health.{calculate_health_score}
use moistello_contracts.Circle.Payout.{is_paid}
use moistello_contracts.Circle.Resolve.{resolve_recipient}
use moistello_contracts.Circle.Externals.{Externals, snapshot_config, get_yield_rate}
use moistello_contracts.Circle.Distribution.{Weights, weigh_all, pay_pool}

-- `bitmap |= 1u128 << position`
unfoldable pub mark_paid : ℕ → ℕ → ℕ
mark_paid bitmap position =
    if is_paid bitmap position then bitmap else bitmap + 2 ^ (position % 128)

-- The loop that marks the position of the recipient's first entry as paid.
unfoldable pub mark_recipient : Circle → List Member → Address → Circle
mark_recipient circle members recipient = elim (find_member recipient members) [
  | none ↦ circle
  | some m ↦ record circle { payout_bitmap = mark_paid circle.payout_bitmap m.position }
]

abbrev pub no_weights : Weights
no_weights = record { total = 0; by_member = [] }

module _ {W : Type 0} where
  -- The tests on the circle before a payout.
  unfoldable pub check_round : Env → Circle → ℕ → Op W
  check_round env circle round = do
    fail_if (not (circle.status == status_active)) not_active
    fail_if (not (round == circle.current_round)) round_not_current
    fail_if
        (ltb 0 circle.min_duration_seconds
          && ltb (env.timestamp - circle.created_at) circle.min_duration_seconds)
        circle_duration_too_short

  -- No round is settled past a member who can still pay.
  unfoldable pub check_awaited : Env → Circle → ℕ → List Member → Op W
  check_awaited env circle round members = do
    contributors ← gets (λ s. round_contributors s round)
    fail_if
        (not (contribution_window_closed env circle)
          && ltb 0 (active_members_awaiting members contributors))
        invalid_contribution_round

  -- The circle with its health score, and the two events at the end of a round.
  unfoldable pub write_round :
      Circle → ℕ → Address → ℤ → ℤ → List Member → List PayoutRecipient → Op W
  write_round circle round recipient amount fee members payouts = do
    contributions ← gets contribution_log
    let health = calculate_health_score members contributions
    modify (λ s. record s {
      circle = some (record circle { health_score = health.score });
      payouts = some payouts;
      members = some members;
    })
    publish (
        circle_health_updated health.score health.on_time_rate_bps health.completion_rate_bps
          health.member_retention_bps round)
    publish (payout_executed recipient round amount fee circle.payout_type)

  abbrev pub payouts_of : Store W → List PayoutRecipient
  payouts_of s = unwrap_or [] s.payouts

  -- The loop over the members of a completed circle that records their completion.
  abbrev pub record_completions : Env → List Member → Store W → Store W
  record_completions env [] s = s
  record_completions env (m ∷ members) s = record_completions env members (
      if m.status == member_active
      then record s { registry = (record_circle_completion env m.address s.registry).1 }
      else s)

module _ {W : Type 0} (x : Externals W) where
  -- A round that is over: the circle is completed, or the configuration of the next one is kept.
  unfoldable pub close_round : Circle → M (Store W) CircleError Circle
  close_round circle =
      if_else (leb circle.total_rounds circle.current_round)
        (pure (record circle { status = status_completed }))
        (snapshot_config x circle >> pure circle)

  unfoldable pub end_round :
      Circle
      → ℕ
      → Address
      → ℤ
      → ℤ
      → List Member
      → List PayoutRecipient
      → M (Store W) CircleError Circle
  end_round circle round recipient amount fee members payouts = do
    closed ← close_round circle
    write_round closed round recipient amount fee members payouts
    pure closed

  -- A pool that nets to nothing: the round is settled without a payment.
  unfoldable pub settle_empty : Env → Circle → ℕ → Address → Op W
  settle_empty env circle round recipient = do
    members ← load (λ s. s.members) not_initialized
    let marked = mark_recipient circle members recipient
    payouts ← gets payouts_of
    next ← ok_or (checked_add_u32 circle.current_round 1) invalid_amount
    end_round (record marked { current_round = next }) round recipient (pos 0) (pos 0) members
          (push_back payouts (record {
            recipient = recipient;
            round = round;
            amount = pos 0;
            fee = pos 0;
            payout_type = circle.payout_type;
            timestamp = env.timestamp;
          }))
        >>= λ _. pure tt

  -- The loop that returns the collateral.
  unfoldable pub return_collateral : Circle → List Member → Op W
  return_collateral circle [] = pure tt
  return_collateral circle (m ∷ members) = do
    only_if (m.status == member_active)
        (client_transfer x.tokens circle.token circle.id m.address circle.collateral_amount)
    return_collateral circle members

  unfoldable pub complete : Env → Circle → List Member → Op W
  complete env circle members = do
    publish (circle_completed circle.total_payouts)
    only_if (ltb_ℤ (pos 0) circle.collateral_amount) (return_collateral circle members)
    final_members ← load (λ s. s.members) not_initialized
    modify (record_completions env final_members)

  unfoldable pub settle_pool : Env → Circle → ℕ → Address → ℤ → ℤ → Op W
  settle_pool env circle round recipient net fee = do
    get_yield_rate x round >>= λ _. pure tt
    contributions ← gets contribution_log
    payouts ← gets payouts_of
    members ← load (λ s. s.members) not_initialized
    let marked = mark_recipient circle members recipient
    paid ←
        pay_pool x circle round env.timestamp recipient net fee
          (weigh_all env.timestamp round contributions no_weights)
          (record {
            distributed = pos 0;
            payouts = push_back payouts (record {
              recipient = recipient;
              round = round;
              amount = net;
              fee = fee;
              payout_type = circle.payout_type;
              timestamp = env.timestamp;
            });
            members = members;
          })
    next ← ok_or (checked_add_u32 circle.current_round 1) invalid_amount
    total_payouts ← or_err (safe_add circle.total_payouts paid.distributed) invalid_amount
    total_fees ← or_err (safe_add circle.total_fees fee) invalid_amount
    closed ←
        end_round
          (record marked {
            current_round = next;
            total_payouts = total_payouts;
            total_fees = total_fees;
          })
          round recipient paid.distributed fee paid.members paid.payouts
    only_if (closed.status == status_completed) (complete env closed paid.members)

  -- `trigger_payout_internal`
  unfoldable pub trigger_payout_internal : Env → ℕ → Op W
  trigger_payout_internal env round = do
    when_not_paused
    circle ← load (λ s. s.circle) not_initialized
    check_round env circle round
    recipient ← resolve_recipient x.sha256 circle round
    members ← load (λ s. s.members) not_initialized
    check_awaited env circle round members
    pool ← gets (λ s. round_contributed_total s round)
    fee_bps ← gets (λ s. unwrap_or 0 s.fee_bps)
    parts ← or_err (apply_fee pool (pos fee_bps)) invalid_amount
    if_else (leb_ℤ parts.0 (pos 0)) (settle_empty env circle round recipient)
        (settle_pool env circle round recipient parts.0 parts.1)

  -- The tests of who may trigger a payout.
  unfoldable pub require_organizer_or_admin : Env → Address → M (Store W) CircleError Circle
  require_organizer_or_admin env caller = do
    circle ← load (λ s. s.circle) not_initialized
    stored_admin ← load (λ s. s.admin) not_initialized
    fail_if (not (caller == circle.organizer) && not (caller == stored_admin)) unauthorized
    pure circle

  unfoldable pub trigger_payout : Env → Address → ℕ → Op W
  trigger_payout env caller round = do
    when_not_paused
    guarded reentrant_call (do
      require_organizer_or_admin env caller >>= λ _. pure tt
      require_auth env caller
      trigger_payout_internal env round)

  unfoldable pub check_contribution_deadline : Env → Op W
  check_contribution_deadline env = do
    when_not_paused
    guarded reentrant_call (do
      circle ← load (λ s. s.circle) not_initialized
      fail_if (not (circle.status == status_active)) not_active
      fail_if (leb circle.total_rounds circle.current_round) invalid_round
      fail_if (not (contribution_window_closed env circle)) deadline_not_passed
      members ← load (λ s. s.members) not_initialized
      contributors ← gets (λ s. round_contributors s circle.current_round)
      modify (strike_non_contributors env circle circle.current_round contributors members)
      trigger_payout_internal env circle.current_round)

  unfoldable pub schedule_payout : Env → Address → ℕ → Op W
  schedule_payout env caller round = do
    when_not_paused
    guarded not_active (do
      require_auth env caller
      circle ← require_organizer_or_admin env caller
      fail_if (not (circle.status == status_active)) not_active
      fail_if (not (round == circle.current_round)) round_not_current
      modify (λ s. record s { payout_scheduled = set round true s.payout_scheduled }))
