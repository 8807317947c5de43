-- ===== src/Reputation/Scoring.antt =====
-- packages/reputation-registry/src/scoring.rs: the MoiScore, its tiers and what they allow.
use moistello_contracts.Prelude.{
  ℕ, ℤ, pos, ◌+◌, ◌-◌, ◌*◌, ◌/◌, ◌/ℤ◌, Bool, false, not, ◌||◌, ◌&&◌, ◌==◌, leb, ltb, if◌then◌else◌,
  wrapping_u32, saturating_add_u32, saturating_mul_u64, as_u32,
}
use moistello_contracts.Soroban.Contract.{Address, Env}
use moistello_contracts.Reputation.Types.{
  Registry, activity_contribute, activity_complete, activity_default, tier_bronze, tier_silver,
  tier_gold, tier_platinum, tier_diamond,
}
use moistello_contracts.Reputation.Storage.{
  get_score, set_score, get_streak, set_streak, increment_streak, get_completions,
  increment_completions, increment_defaults, add_activity, get_last_round, set_last_round,
}

unfoldable pub get_tier : ℕ → ℕ
get_tier score =
    if leb 801 score
    then tier_diamond
    else if leb 601 score
    then tier_platinum
    else if leb 401 score
    then tier_gold
    else if leb 201 score
    then tier_silver
    else tier_bronze

abbrev pub by_tier {ℓ} : {A : Type ℓ} → ℕ → A → A → A → A → A → A
by_tier tier diamond platinum gold silver other =
    if tier == tier_diamond
    then diamond
    else if tier == tier_platinum
    then platinum
    else if tier == tier_gold
    then gold
    else if tier == tier_silver
    then silver
    else other

-- In basis points.
unfoldable pub calculate_collateral : Address → Registry → ℕ
calculate_collateral member r = by_tier (get_tier (get_score member r)) 0 100 300 500 1000

unfoldable pub max_circle_size : Address → Registry → ℕ
max_circle_size member r = by_tier (get_tier (get_score member r)) 100 50 20 10 5

-- In stroops, an `i128` that is never negative.
unfoldable pub max_contribution : Address → Registry → ℕ
max_contribution member r =
    by_tier (get_tier (get_score member r)) 500000000000 100000000000 20000000000 5000000000
      1000000000

unfoldable pub qualifies_for_circle : Address → ℕ → Bool → Registry → Bool
qualifies_for_circle member min_score require_completions r =
    if ltb (get_score member r) min_score
    then false
    else not (require_completions && get_completions member r == 0)

-- The cap that the functions which add to a score share.
abbrev pub capped : ℕ → ℕ
capped new_score = if ltb 1000 new_score then 1000 else new_score

-- The streak that an on-time payment counts towards its bonus.
abbrev pub counted_streak : Address → Address → ℕ → Registry → ℕ
counted_streak member circle_id round r =
    let last_round = get_last_round member circle_id r in
    if last_round == 0 || round == wrapping_u32 (last_round + 1)
    then wrapping_u32 (get_streak member circle_id r + 1)
    else 1

abbrev pub streak_bonus : ℕ → ℕ
streak_bonus streak = if leb streak 10 then streak * 5 else 50

-- One point per 100 USDC.
abbrev pub volume_bonus : ℤ → ℕ
volume_bonus amount = let raw = as_u32 (amount /ℤ pos 1000000000) in if ltb 20 raw then 20 else raw

abbrev pub payment_score : ℕ → ℕ → ℤ → ℕ
payment_score current streak amount = capped (
    saturating_add_u32 (saturating_add_u32 (saturating_add_u32 current 10) (streak_bonus streak))
      (volume_bonus amount))

-- The functions that record something return the new score and the storage after them.
unfoldable pub record_on_time_payment : Env → Address → Address → ℤ → ℕ → Registry → ℕ × Registry
record_on_time_payment env member circle_id amount round r =
    let last_round = get_last_round member circle_id r in
    let streak = counted_streak member circle_id round r in
    let counted =
      if last_round == 0 || round == wrapping_u32 (last_round + 1)
      then increment_streak member circle_id r
      else set_streak member circle_id 1 r in
    let score = payment_score (get_score member r) streak amount in
    (
      score,
      add_activity env member activity_contribute 1
          (set_score member score (set_last_round member circle_id round counted)),
    )

unfoldable pub record_circle_completion : Env → Address → Registry → ℕ × Registry
record_circle_completion env member r =
    let score = capped (saturating_add_u32 (get_score member r) 100) in
    (
      score,
      add_activity env member activity_complete 5
          (set_score member score (increment_completions member r)),
    )

-- The deduction that stops at 0.
abbrev pub lowered : ℕ → ℕ → ℕ
lowered current penalty = if ltb penalty current then current - penalty else 0

unfoldable pub record_default : Env → Address → Registry → ℕ × Registry
record_default env member r =
    let score = lowered (get_score member r) 200 in
    (
      score,
      add_activity env member activity_default 0
          (set_score member score (increment_defaults member r)),
    )

-- Five points per 30 days.
abbrev pub monthly_decay : ℕ → ℕ
monthly_decay days_inactive = wrapping_u32 (saturating_mul_u64 (days_inactive / 30) 5)

unfoldable pub apply_inactivity_decay : Address → ℕ → Registry → ℕ × Registry
apply_inactivity_decay member days_inactive r =
    let decay = wrapping_u32 (saturating_mul_u64 (days_inactive / 30) 5) in
    let score = lowered (get_score member r) decay in (score, set_score member score r)
