-- ===== src/Reputation/Bounds.antt =====
-- The range of the MoiScore, for packages/reputation-registry/src/scoring.rs.
use moistello_contracts.Prelude.{
  ℕ, ℤ, ◌≤◌, List, [], ◌∷◌, arith, if◌then◌else◌, Bool-cases, inl, inr, Bool, true, false, ◌==◌,
  ◌||◌, ◌+◌, wrapping_u32, saturating_add_u32,
}
use moistello_contracts.Soroban.Contract.{Address, Env}
use moistello_contracts.Soroban.Map.{get_or-set, address_key, pair_key}
use moistello_contracts.Reputation.Types.{Registry}
use moistello_contracts.Reputation.Storage.{
  get_score, set_score, get_last_round, increment_streak, set_streak,
}
use moistello_contracts.Reputation.Scoring.{
  capped, lowered, record_on_time_payment, record_circle_completion, record_default,
  apply_inactivity_decay, payment_score, counted_streak, monthly_decay, streak_bonus, volume_bonus,
}

-- One call of a recording function of the scoring library.
pub data Record : Type 0 where
  on_time_payment : Env → Address → Address → ℤ → ℕ → Record
  circle_completion missed_payment : Env → Address → Record
  inactivity : Address → ℕ → Record

unfoldable pub record_one : Record → Registry → Registry
record_one (Record.on_time_payment env member circle_id amount round) r =
    (record_on_time_payment env member circle_id amount round r).1
record_one (Record.circle_completion env member) r = (record_circle_completion env member r).1
record_one (Record.missed_payment env member) r = (record_default env member r).1
record_one (Record.inactivity member days) r = (apply_inactivity_decay member days r).1

unfoldable pub record_all : List Record → Registry → Registry
record_all [] r = r
record_all (c ∷ cs) r = record_all cs (record_one c r)

-- Every member's score is at most 1000.
abbrev pub IsInRange : Registry → Type 0
IsInRange r = (member : Address) → get_score member r ≤ 1000

pub capped-le : (n : ℕ) → capped n ≤ 1000
capped-le n = ground arith

pub payment_score-le :
    (current streak : ℕ) (amount : ℤ) → payment_score current streak amount ≤ 1000
payment_score-le current streak amount = capped-le (
    saturating_add_u32 (saturating_add_u32 (saturating_add_u32 current 10) (streak_bonus streak))
      (volume_bonus amount))

pub lowered-le : (n penalty : ℕ) → lowered n penalty ≤ n
lowered-le n penalty = ground arith

pub set_score-IsInRange :
    (r : Registry) (member : Address) (score : ℕ)
    → score ≤ 1000
    → IsInRange r
    → IsInRange (set_score member score r)
set_score-IsInRange r member score le h other =
    let changed = get_or-set 0 member other score r.member_score in
    elim (Bool-cases (address_key.beq member other)) [
      | inl same ↦ rw changed (rw same le)
      | inr different ↦ rw changed (rw different (h other))
    ]

pub record_one-IsInRange : (c : Record) (r : Registry) → IsInRange r → IsInRange (record_one c r)
unfolding record_one record_on_time_payment record_circle_completion record_default
    apply_inactivity_decay
record_one-IsInRange (Record.on_time_payment env member circle_id amount round) r h =
    by_streak (last_round == 0 || round == wrapping_u32 (last_round + 1))
  where
    last_round : ℕ
    last_round = get_last_round member circle_id r

    score : ℕ
    score = payment_score (get_score member r) (counted_streak member circle_id round r) amount

    in_range : score ≤ 1000
    in_range =
        payment_score-le (get_score member r) (counted_streak member circle_id round r) amount

    by_streak :
        (b : Bool)
        → IsInRange (
            set_score member score
              (if b then increment_streak member circle_id r else set_streak member circle_id 1 r))
    by_streak true = set_score-IsInRange r member score in_range h
    by_streak false = set_score-IsInRange r member score in_range h
record_one-IsInRange (Record.circle_completion env member) r h =
    set_score-IsInRange r member (capped (saturating_add_u32 (get_score member r) 100))
      (capped-le (saturating_add_u32 (get_score member r) 100)) h
record_one-IsInRange (Record.missed_payment env member) r h =
    set_score-IsInRange r member (lowered (get_score member r) 200)
      (omega (arith, lowered-le (get_score member r) 200, h member)) h
record_one-IsInRange (Record.inactivity member days) r h =
    set_score-IsInRange r member (lowered (get_score member r) (monthly_decay days))
      (omega (arith, lowered-le (get_score member r) (monthly_decay days), h member)) h

-- Whatever payments, completions, missed payments and decays the scoring library records, in whatever
-- order: from a registry in which no member's score exceeds 1000 it reaches only such registries.
pub record_all-IsInRange :
    (cs : List Record) (r : Registry) → IsInRange r → IsInRange (record_all cs r)
unfolding record_all
record_all-IsInRange [] r h = h
record_all-IsInRange (c ∷ cs) r h =
    record_all-IsInRange cs (record_one c r) (record_one-IsInRange c r h)
