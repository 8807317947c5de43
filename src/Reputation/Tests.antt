-- ===== src/Reputation/Tests.antt =====
-- Runs of the scoring library.
use moistello_contracts.Prelude.{pos, ◌≡◌, refl, ◌≤◌, List, [], ◌∷◌, true, arith, ◌+◌, ◌/ℤ◌}
use moistello_contracts.Soroban.Contract.{Env}
use moistello_contracts.Soroban.Map.{address_key, pair_key, get, set}
use moistello_contracts.Reputation.Types.{Registry}
use moistello_contracts.Reputation.Storage.{get_score}
use moistello_contracts.Reputation.Scoring.{
  record_on_time_payment, record_circle_completion, record_default, apply_inactivity_decay,
  calculate_collateral, max_circle_size, max_contribution,
}
use moistello_contracts.Reputation.Bounds.{
  Record, record_one, record_all, record_all-IsInRange, IsInRange,
}
use moistello_contracts.Reputation.Tiers.{higher_score_allows, record_on_time_payment_bounds}

abbrev empty : Registry
empty = record {
  member_score = [];
  streak = [];
  completions = [];
  defaults = [];
  member_log = [];
  last_round = [];
}

abbrev now : Env
now = record { authorized = λ a. true; current_contract = 9; sequence = 1; timestamp = 100 }

abbrev history : List Record
history =
    Record.on_time_payment now 1 9 (pos 5000000000) 1
    ∷ Record.on_time_payment now 1 9 (pos 5000000000) 2
    ∷ Record.circle_completion now 1
    ∷ Record.missed_payment now 2
    ∷ Record.inactivity 1 65
    ∷ []

-- 10 + 5 + 5 points, then 10 + 10 + 5, 100 for the completion, less 10 for two months.
history_score : get_score 1 (record_all history empty) ≡ 135
unfolding record_all record_one record_on_time_payment record_circle_completion record_default
    apply_inactivity_decay get set ◌/ℤ◌
history_score = refl

empty-IsInRange : IsInRange empty
unfolding get
empty-IsInRange member = omega arith

record_all-IsInRange_example : IsInRange (record_all history empty)
record_all-IsInRange_example = record_all-IsInRange history empty empty-IsInRange

abbrev two_members : Registry
two_members = record empty { member_score = (1, 150) ∷ (2, 700) ∷ [] }

higher_score_allows_example :
    (calculate_collateral 2 two_members ≤ calculate_collateral 1 two_members)
    × (max_circle_size 1 two_members ≤ max_circle_size 2 two_members)
    × (max_contribution 1 two_members ≤ max_contribution 2 two_members)
unfolding get
higher_score_allows_example = higher_score_allows two_members 1 2 (omega arith)

record_on_time_payment_bounds_example :
    (700 ≤ (record_on_time_payment now 2 9 (pos 5000000000) 1 two_members).0)
    × ((record_on_time_payment now 2 9 (pos 5000000000) 1 two_members).0 ≤ 700 + 80)
unfolding get
record_on_time_payment_bounds_example =
    record_on_time_payment_bounds now 2 9 (pos 5000000000) 1 two_members (omega arith)
