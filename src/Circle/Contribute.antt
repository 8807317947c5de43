-- ===== src/Circle/Contribute.antt =====
-- `contribute` of packages/circle/src/contract.rs, with the part of each paragraph of its body as a
-- function. The token contract is a parameter.
use moistello_contracts.Prelude.{
  ℕ, ℤ, pos, ltb_ℤ, Bool, true, false, ◌&&◌, not, ◌==◌, leb, ltb, if◌then◌else◌, Option, none, some,
  List, [], ◌∷◌, push_back, checked_add_u64, saturating_add, eqb_ℤ,
}
use moistello_contracts.Soroban.Result.{Result, ok, err}
use moistello_contracts.Soroban.Contract.{
  Address, Env, ◌>>=◌, ◌>>◌, load, ok_or, or_err, fail_if, gets, modify, require_auth, map_err,
  unwrap_or, lift, only_if, if_some,
}
use moistello_contracts.Soroban.Map.{get, get_or, set, address_key, pair_key}
use moistello_contracts.Common.Math.{safe_add, calculate_penalty}
use moistello_contracts.Common.Pause
use moistello_contracts.Common.Reentrancy.{guarded}
use moistello_contracts.Common.TokenTransfer.{TokenLedger, client_transfer}
use moistello_contracts.Reputation.Scoring.{record_on_time_payment}
use moistello_contracts.Circle.Types.{
  Circle, Member, Contribution, RoundFeeLedger, CircleError, not_initialized, not_active,
  not_member, round_not_current, invalid_amount, payment_deadline_passed, contract_paused,
  already_contributed, contribution_mismatch, invalid_member_status, payout_already_scheduled,
  already_struck, contribution_recorded, late_penalty_applied, Store, Op, publish, circle_pause,
  circle_lock, circle_ledger, status_active, member_active,
}
use moistello_contracts.Circle.Rounds.{contribution_log, struck_in_round, is_payout_scheduled}
use moistello_contracts.Circle.Streaks.{update_streak_internal}

-- Whether a contribution made now is on time; an error once the window has shut.
unfoldable pub payment_timing : Env → Circle → Result CircleError Bool
payment_timing env circle =
    if ltb 0 circle.contribution_deadline_seconds
    then elim (checked_add_u64 circle.started_at circle.contribution_deadline_seconds) [
      | none ↦ err invalid_amount
      | some deadline ↦
          if leb env.timestamp deadline
          then ok true
          else if ltb 0 circle.grace_period_seconds
          then elim (checked_add_u64 deadline circle.grace_period_seconds) [
            | none ↦ err invalid_amount
            | some grace_deadline ↦
                if leb env.timestamp grace_deadline then ok false else err payment_deadline_passed
          ]
          else err payment_deadline_passed
    ]
    else ok true

-- The first entry of the member in the list.
abbrev pub find_member : Address → List Member → Option Member
find_member member [] = none
find_member member (m ∷ members) =
    if m.address == member then some m else find_member member members

abbrev pub empty_round_fee_ledger : ℕ → RoundFeeLedger
empty_round_fee_ledger round = record {
  round = round;
  payout_fee = pos 0;
  late_penalty_fee = pos 0;
  total_fee = pos 0;
}

module _ {W : Type 0} where
  unfoldable pub when_not_paused : Op W
  when_not_paused = map_err (λ _. contract_paused) Pause.when_not_paused

  -- `get_round_fee_ledger` is this entry.
  unfoldable pub record_round_fee : ℕ → ℤ → ℤ → Op W
  record_round_fee round payout_fee_delta late_penalty_fee_delta = do
    entry ← gets (λ s. get_or (empty_round_fee_ledger round) round s.round_fee_ledger)
    payout_fee ← or_err (safe_add entry.payout_fee payout_fee_delta) invalid_amount
    late_penalty_fee ←
        or_err (safe_add entry.late_penalty_fee late_penalty_fee_delta) invalid_amount
    total_fee ← or_err (safe_add payout_fee late_penalty_fee) invalid_amount
    modify (λ s. record s {
      round_fee_ledger =
          set round
            (record entry {
              payout_fee = payout_fee;
              late_penalty_fee = late_penalty_fee;
              total_fee = total_fee;
            })
            s.round_fee_ledger;
    })

  -- The status of a member whose entry of its own is missing: from the list, and then kept.
  unfoldable pub check_listed_member : Address → Op W
  check_listed_member member = do
    members ← load (λ s. s.members) not_initialized
    m ← ok_or (find_member member members) not_member
    fail_if (not (m.status == member_active)) invalid_member_status
    modify (λ s. record s { member_status = set member member_active s.member_status })

  unfoldable pub check_status : Address → Option ℕ → Op W
  check_status member none = check_listed_member member
  check_status member (some status) = fail_if (not (status == member_active)) invalid_member_status

  -- Both records of past contributions, the old one of which not every circle has.
  abbrev pub has_contributed : Store W → Address → ℕ → Bool
  has_contributed s member round = elim (get (member, round) s.member_contributed) [
    | none ↦ get_or false (member, round) (unwrap_or [] s.contribs)
    | some flag ↦ true
  ]

  unfoldable pub check_not_contributed : Address → ℕ → Op W
  check_not_contributed member round = do
    again ← gets (λ s. has_contributed s member round)
    fail_if again already_contributed

  -- The entries that a contribution adds to.
  abbrev pub with_contribution : Store W → Contribution → Store W
  with_contribution s c = record s {
    contributions = some (push_back (contribution_log s) c);
    member_contributed = set (c.member, c.round) true s.member_contributed;
    round_total_contributed =
        set c.round (saturating_add (get_or (pos 0) c.round s.round_total_contributed) c.amount)
          s.round_total_contributed;
    round_contributors =
        set c.round (push_back (get_or [] c.round s.round_contributors) c.member)
          s.round_contributors;
    contribs = elim s.contribs [
      | none ↦ none
      | some contrib_map ↦ some (set (c.member, c.round) true contrib_map)
    ];
  }

  unfoldable pub record_contribution : Address → ℤ → ℕ → ℕ → Bool → Op W
  record_contribution member amount round now on_time = modify (λ s. with_contribution s (record {
    member = member;
    round = round;
    amount = amount;
    timestamp = now;
    on_time = on_time;
    time_weight = now;
  }))

  unfoldable pub reward_on_time : Env → Circle → Address → ℤ → ℕ → Bool → Op W
  reward_on_time env circle member amount round on_time = only_if on_time (
      modify (λ s. update_streak_internal member round (record s {
        registry = (record_on_time_payment env member circle.id amount round s.registry).1;
      })))

  -- The tests of `contribute` that come before it moves tokens.
  unfoldable pub admit_contribution : Circle → Address → ℤ → ℕ → Op W
  admit_contribution circle member amount round = do
    fail_if (not (circle.status == status_active)) not_active
    struck ← gets (λ s. struck_in_round s round member)
    fail_if struck already_struck
    fail_if (not (round == circle.current_round)) round_not_current
    scheduled ← gets (λ s. is_payout_scheduled s round)
    fail_if scheduled payout_already_scheduled
    fail_if (not (eqb_ℤ amount circle.contribution_amount)) contribution_mismatch
    status ← gets (λ s. get member s.member_status)
    check_status member status
    check_not_contributed member round

module _ {W : Type 0} (t : TokenLedger W) where
  unfoldable pub apply_penalty : Circle → Address → ℕ → ℤ → Op W
  apply_penalty circle member round penalty = do
    treasury ← gets (λ s. s.treasury)
    if_some treasury (λ to. client_transfer t circle.token circle.id to penalty)
    total_fees ← or_err (safe_add circle.total_fees penalty) invalid_amount
    record_round_fee round (pos 0) penalty
    modify (λ s. record s { circle = some (record circle { total_fees = total_fees }) })
    publish (late_penalty_applied member round penalty)

  unfoldable pub charge_late_penalty : Circle → Address → ℤ → ℕ → Op W
  charge_late_penalty circle member amount round = do
    penalty ← or_err (calculate_penalty amount (pos circle.penalty_bps)) invalid_amount
    only_if (ltb_ℤ (pos 0) penalty) (apply_penalty circle member round penalty)

  -- What `contribute` does once the tests are passed.
  unfoldable pub take_contribution : Env → Circle → Address → ℤ → ℕ → Op W
  take_contribution env circle member amount round = do
    on_time ← lift (payment_timing env circle)
    client_transfer t circle.token member circle.id amount
    only_if (not on_time && ltb 0 circle.penalty_bps)
        (charge_late_penalty circle member amount round)
    record_contribution member amount round env.timestamp on_time
    publish (contribution_recorded member round amount on_time)
    reward_on_time env circle member amount round on_time

  unfoldable pub contribute_unlocked : Env → Address → ℤ → ℕ → Op W
  contribute_unlocked env member amount round = do
    require_auth env member
    circle ← load (λ s. s.circle) not_initialized
    admit_contribution circle member amount round
    take_contribution env circle member amount round

  unfoldable pub contribute : Env → Address → ℤ → ℕ → Op W
  contribute env member amount round = do
    when_not_paused
    guarded not_active (contribute_unlocked env member amount round)
