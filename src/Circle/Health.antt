-- ===== src/Circle/Health.antt =====
-- `calculate_health_score` of packages/circle/src/contract.rs. A list of the source has fewer than
-- 2 ^ 32 elements, so the counters do not wrap.
use moistello_contracts.Prelude.{
  ℕ, ◌+◌, ◌-◌, ◌*◌, ◌/◌, ◌==◌, if◌then◌else◌, List, [], ◌∷◌, length, min, saturating_mul_u32,
}
use moistello_contracts.Circle.Types.{Member, Contribution, member_exited, member_defaulted}

pub record HealthScoreResult : Type 0 where
  pub score : ℕ
  pub on_time_rate_bps : ℕ
  pub completion_rate_bps : ℕ
  pub member_retention_bps : ℕ

abbrev pub count_on_time : List Contribution → ℕ
count_on_time [] = 0
count_on_time (c ∷ contributions) = (if c.on_time then 1 else 0) + count_on_time contributions

abbrev pub count_status : ℕ → List Member → ℕ
count_status status [] = 0
count_status status (m ∷ members) =
    (if m.status == status then 1 else 0) + count_status status members

-- A part of a total in basis points.
unfoldable pub rate_bps : ℕ → ℕ → ℕ
rate_bps part total = if total == 0 then 10000 else saturating_mul_u32 part 10000 / total

unfoldable pub weighted_score : ℕ → ℕ → ℕ → ℕ
weighted_score on_time completion retention =
    min ((on_time * 40 + completion * 35 + retention * 25) / 1000000) 100

unfoldable pub calculate_health_score : List Member → List Contribution → HealthScoreResult
calculate_health_score members contributions =
    let count = length members in
    let on_time = rate_bps (count_on_time contributions) (length contributions) in
    let completion = rate_bps (count - count_status member_defaulted members) count in
    let retention = rate_bps (count - count_status member_exited members) count in
    record {
      score = weighted_score on_time completion retention;
      on_time_rate_bps = on_time;
      completion_rate_bps = completion;
      member_retention_bps = retention;
    }
