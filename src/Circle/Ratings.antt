-- ===== src/Circle/Ratings.antt =====
-- The range of `calculate_health_score` of packages/circle/src/contract.rs.
use moistello_contracts.Prelude.{
  ℕ, ◌≡◌, ◌-◌, ◌≤◌, ◌==◌, arith, List, [], ◌∷◌, length, if◌then◌else◌, Bool-cases, ◌&&◌, inl, inr,
}
use native.Mathlib.Nat.{div-le_of_le-mul}
use moistello_contracts.Circle.Types.{Member, Contribution, member_exited, member_defaulted}
use moistello_contracts.Circle.Health.{
  calculate_health_score, rate_bps, weighted_score, count_on_time, count_status,
}

pub count_on_time-le : (cs : List Contribution) → count_on_time cs ≤ length cs
count_on_time-le [] = omega arith
count_on_time-le (c ∷ cs) = ground (arith, count_on_time-le cs)

-- The weights add up to 100, and the divisor is 100 times the scale.
weighted_score_lem :
    (a b c : ℕ)
    → a ≤ 10000
    → b ≤ 10000
    → c ≤ 10000
    → weighted_score a b c ≡ (if a == 10000 && (b == 10000 && c == 10000) then 1 else 0)
unfolding weighted_score
weighted_score_lem a b c la lb lc = ground arith

pub rate_bps-le : (part total : ℕ) → part ≤ total → rate_bps part total ≤ 10000
unfolding rate_bps
rate_bps-le part total le = elim (Bool-cases (total == 0)) [
  | inl none ↦ rw none (omega arith)
  | inr some ↦ rw some (div-le_of_le-mul total (ground (arith, le)))
]

-- Each of the three rates of the health score is at most 10000 basis points, and the score is 1 if
-- all three are 10000 and 0 otherwise.
pub calculate_health_score_lem :
    (members : List Member) (contributions : List Contribution)
    → let health = calculate_health_score members contributions in
      ((health.on_time_rate_bps ≤ 10000)
        × ((health.completion_rate_bps ≤ 10000) × (health.member_retention_bps ≤ 10000)))
      × (health.score ≡ (
          if health.on_time_rate_bps == 10000
            && (health.completion_rate_bps == 10000 && health.member_retention_bps == 10000)
          then 1
          else 0))
unfolding calculate_health_score
calculate_health_score_lem members contributions =
    let paid =
      rate_bps-le (count_on_time contributions) (length contributions)
        (count_on_time-le contributions) in
    let kept =
      rate_bps-le (length members - count_status member_defaulted members) (length members)
        (omega arith) in
    let stayed =
      rate_bps-le (length members - count_status member_exited members) (length members)
        (omega arith) in
    ((paid, (kept, stayed)), weighted_score_lem _ _ _ paid kept stayed)
