-- ===== src/Circle/Rounds.antt =====
-- The contribution window and the accounts of a round, packages/circle/src/contract.rs.
use moistello_contracts.Prelude.{
  ℕ, ℤ, pos, Bool, false, ◌&&◌, ◌||◌, not, ◌==◌, ltb, if◌then◌else◌, Option, none, some, List, [],
  ◌∷◌, push_back, checked_add_u64, saturating_add_u32, saturating_add,
}
use moistello_contracts.Soroban.Contract.{Address, Env, unwrap_or}
use moistello_contracts.Soroban.Map.{get, get_or, set, address_key}
use moistello_contracts.Circle.Types.{Circle, Member, Contribution, Store, member_active}

abbrev pub add_contributor : ℕ → List Address → Contribution → List Address
add_contributor round found c = if c.round == round then push_back found c.member else found

-- The loop that adds the members who contributed for a round to a list.
abbrev pub derived_contributors : ℕ → List Address → List Contribution → List Address
derived_contributors round found [] = found
derived_contributors round found (c ∷ cs) =
    derived_contributors round (add_contributor round found c) cs

abbrev pub add_contribution : ℕ → ℤ → Contribution → ℤ
add_contribution round total c = if c.round == round then saturating_add total c.amount else total

-- The loop that adds the contributions for a round to a total.
abbrev pub derived_total : ℕ → ℤ → List Contribution → ℤ
derived_total round total [] = total
derived_total round total (c ∷ cs) = derived_total round (add_contribution round total c) cs

module _ {W : Type 0} where
  abbrev pub contribution_log : Store W → List Contribution
  contribution_log s = unwrap_or [] s.contributions

  unfoldable pub round_contributors : Store W → ℕ → List Address
  round_contributors s round = elim (get round s.round_contributors) [
    | some contributors ↦ contributors
    | none ↦ derived_contributors round [] (contribution_log s)
  ]

  unfoldable pub round_contributed_total : Store W → ℕ → ℤ
  round_contributed_total s round = elim (get round s.round_total_contributed) [
    | some total ↦ total
    | none ↦ derived_total round (pos 0) (contribution_log s)
  ]

  -- The new value of a member's strikes in a round.
  abbrev pub strikes_in : Store W → ℕ → Address → ℕ
  strikes_in s round member = get_or 0 member (get_or [] round s.round_strikes)

  abbrev pub record_round_strike : ℕ → Address → Store W → Store W
  record_round_strike round member s = record s {
    round_strikes =
        set round
          (set member (saturating_add_u32 (strikes_in s round member) 1)
            (get_or [] round s.round_strikes))
          s.round_strikes;
  }

  abbrev pub struck_in_round : Store W → ℕ → Address → Bool
  struck_in_round s round member = ltb 0 (strikes_in s round member)

  abbrev pub is_payout_scheduled : Store W → ℕ → Bool
  is_payout_scheduled s round = get_or false round s.payout_scheduled

abbrev pub contributed_in : List Address → Address → Bool
contributed_in [] member = false
contributed_in (a ∷ contributors) member = a == member || contributed_in contributors member

unfoldable pub round_contribution_deadline : Circle → Option ℕ
round_contribution_deadline circle =
    if circle.contribution_deadline_seconds == 0
    then none
    else checked_add_u64 circle.started_at circle.contribution_deadline_seconds

unfoldable pub round_forfeit_time : Circle → Option ℕ
round_forfeit_time circle = elim (round_contribution_deadline circle) [
  | none ↦ none
  | some deadline ↦
      if circle.grace_period_seconds == 0
      then some deadline
      else checked_add_u64 deadline circle.grace_period_seconds
]

unfoldable pub contribution_window_closed : Env → Circle → Bool
contribution_window_closed env circle = elim (round_forfeit_time circle) [
  | none ↦ false
  | some forfeit_at ↦ ltb forfeit_at env.timestamp
]

-- The members that a round still waits for.
abbrev pub is_awaited : List Address → Member → Bool
is_awaited contributors m = m.status == member_active && not (contributed_in contributors m.address)

abbrev pub active_members_awaiting_from : ℕ → List Member → List Address → ℕ
active_members_awaiting_from awaiting [] contributors = awaiting
active_members_awaiting_from awaiting (m ∷ members) contributors =
    active_members_awaiting_from
      (if is_awaited contributors m then saturating_add_u32 awaiting 1 else awaiting) members
      contributors

abbrev pub active_members_awaiting : List Member → List Address → ℕ
active_members_awaiting members contributors = active_members_awaiting_from 0 members contributors
