-- ===== src/Circle/Types.antt =====
-- packages/circle/src/types.rs, and the entries of the storage that contract.rs keeps.
use Prim.Native.String.{String}
use moistello_contracts.Prelude.{ℕ, ℤ, Bool, Option, List, push_back, refl, some}
use moistello_contracts.Soroban.Contract.{Address, M, modify}
use moistello_contracts.Soroban.Map.{Map}
use moistello_contracts.Common.Pause.{PauseStore}
use moistello_contracts.Common.Reentrancy.{LockStore}
use moistello_contracts.Common.TokenTransfer.{HasLedger}
use moistello_contracts.Common.Vrf.{Vrf}
use moistello_contracts.Reputation.Types.{Registry}

abbrev pub status_pending : ℕ
status_pending = 0

abbrev pub status_active : ℕ
status_active = 1

abbrev pub status_completed : ℕ
status_completed = 2

abbrev pub status_cancelled : ℕ
status_cancelled = 3

abbrev pub status_disputed : ℕ
status_disputed = 4

abbrev pub payout_random : ℕ
payout_random = 0

abbrev pub payout_fixed : ℕ
payout_fixed = 1

abbrev pub payout_auction : ℕ
payout_auction = 2

abbrev pub payout_vote : ℕ
payout_vote = 3

abbrev pub member_active : ℕ
member_active = 0

abbrev pub member_exited : ℕ
member_exited = 1

abbrev pub member_defaulted : ℕ
member_defaulted = 2

pub record Circle : Type 0 where
  pub id : Address
  pub token : Address
  pub name : String
  pub organizer : Address
  pub factory : Address
  pub contribution_amount : ℤ
  pub max_members : ℕ
  pub member_count : ℕ
  pub payout_type : ℕ
  pub total_rounds : ℕ
  pub current_round : ℕ
  pub status : ℕ
  pub started_at : ℕ
  pub created_at : ℕ
  pub contribution_deadline_seconds : ℕ
  pub min_moi_score : ℕ
  pub collateral_amount : ℤ
  pub penalty_bps : ℕ
  pub grace_period_seconds : ℕ
  pub max_strikes : ℕ
  pub payout_bitmap : ℕ
  pub total_payouts : ℤ
  pub total_fees : ℤ
  pub slug : String
  pub health_score : ℕ
  pub max_withdrawal_per_tx : ℤ
  pub daily_withdrawal_limit : ℤ
  pub min_duration_seconds : ℕ

pub record Member : Type 0 where
  pub address : Address
  pub position : ℕ
  pub joined_at : ℕ
  pub strikes : ℕ
  pub status : ℕ
  pub exited_at : ℕ
  pub total_contributions : ℤ
  pub total_received : ℤ

pub record Contribution : Type 0 where
  pub member : Address
  pub round : ℕ
  pub amount : ℤ
  pub timestamp : ℕ
  pub on_time : Bool
  pub time_weight : ℕ

pub record AuctionBid : Type 0 where
  pub bidder : Address
  pub discount_bips : ℕ
  pub round : ℕ
  pub timestamp : ℕ
  pub deposit : ℤ

pub record VoteEntry : Type 0 where
  pub voter : Address
  pub vote_for : Address
  pub round : ℕ
  pub timestamp : ℕ

pub record PayoutRecipient : Type 0 where
  pub recipient : Address
  pub round : ℕ
  pub amount : ℤ
  pub fee : ℤ
  pub payout_type : ℕ
  pub timestamp : ℕ

pub record RoundFeeLedger : Type 0 where
  pub round : ℕ
  pub payout_fee : ℤ
  pub late_penalty_fee : ℤ
  pub total_fee : ℤ

pub record Streak : Type 0 where
  pub member : Address
  pub current_streak : ℕ
  pub longest_streak : ℕ
  pub last_round : ℕ

pub data CircleError : Type 0 where
  not_initialized not_active circle_full already_member not_member insufficient_moi_score
        round_not_current invalid_amount payment_deadline_passed max_strikes_reached not_organizer
        contract_paused invalid_invite_code auction_already_resolved vote_quorum_not_met
        already_contributed already_voted already_bidded payout_already_executed invalid_payout_type
        invalid_round contribution_mismatch circle_not_full not_enough_votes dispute_already_raised
        no_active_dispute unauthorized invalid_bid invalid_member_status empty_payout_order
        circle_size_exceeds_tier contribution_exceeds_tier vec_access_error allowlist_not_permitted
        insufficient_contract_balance self_referral oracle_unavailable not_implemented
        zero_payout_amount withdrawal_cap_exceeded daily_withdrawal_limit_exceeded
        circle_duration_too_short payout_already_scheduled dutch_auction_not_configured
        dutch_auction_expired invalid_dutch_config auction_not_resolved invalid_contribution_round
        deadline_not_passed reentrant_call already_struck :
      CircleError

-- The events that the modelled functions publish.
pub data CircleEvent : Type 0 where
  member_joined : Address → ℕ → CircleEvent
  contribution_recorded : Address → ℕ → ℤ → Bool → CircleEvent
  late_penalty_applied : Address → ℕ → ℤ → CircleEvent
  member_struck : Address → ℕ → CircleEvent
  circle_health_updated : ℕ → ℕ → ℕ → ℕ → ℕ → CircleEvent
  payout_executed : Address → ℕ → ℤ → ℤ → ℕ → CircleEvent
  circle_completed : ℤ → CircleEvent
  oracle_fallback_used : ℕ → Address → Address → CircleEvent
  paused unpaused : Address → CircleEvent

-- The entries of the storage, those of the reputation library included, and the token ledger W,
-- which lies outside of the contract; none is an entry that is not set. An entry that has one key
-- for each round or member is a map.
pub record Store (W : Type 0) : Type 0 where
  pub circle : Option Circle
  pub admin : Option Address
  pub treasury : Option Address
  pub members : Option (List Member)
  pub contributions : Option (List Contribution)
  pub bids : Option (List AuctionBid)
  pub votes : Option (List VoteEntry)
  pub allowlist : Option (List Address)
  pub streaks : Option (List Streak)
  pub payouts : Option (List PayoutRecipient)
  pub fee_bps : Option ℕ
  pub oracle_contract : Option Address
  pub fallback_oracle : Option Address
  pub auction_winner : Map ℕ Address
  pub round_config_snapshot : Map ℕ ℕ
  pub round_fee_ledger : Map ℕ RoundFeeLedger
  pub round_strikes : Map ℕ (Map Address ℕ)
  pub round_total_contributed : Map ℕ ℤ
  pub round_contributors : Map ℕ (List Address)
  pub member_contributed : Map (Address × ℕ) Bool
  pub member_status : Map Address ℕ
  pub payout_scheduled : Map ℕ Bool
  pub contribs : Option (Map (Address × ℕ) Bool)
  pub registry : Registry
  pub vrf : Vrf
  pub paused_flag : Option Bool
  pub lock : Option Bool
  pub events : List CircleEvent
  pub tokens : W

-- A function of the contract that returns nothing.
abbrev pub Op : Type 0 → Type 0
Op W = M (Store W) CircleError (Unit {0})

module _ {W : Type 0} where
  abbrev pub with_event : CircleEvent → Store W → Store W
  with_event e s = record s { events = push_back s.events e }

  -- `env.events().publish(..)`
  abbrev pub publish : CircleEvent → Op W
  publish e = modify (with_event e)

  instance abbrev pub circle_pause : PauseStore (Store W)
  circle_pause = record {
    paused = λ s. s.paused_flag;
    set_paused = λ b s. record s { paused_flag = some b };
    publish_paused = λ a. with_event (paused a);
    publish_unpaused = λ a. with_event (unpaused a);
    paused-set = λ b s. refl;
    paused-publish = λ a s. refl;
    unpaused-publish = λ a s. refl;
  }

  instance abbrev pub circle_lock : LockStore (Store W)
  circle_lock = record {
    locked = λ s. s.lock;
    set_locked = λ b s. record s { lock = some b };
    locked-set = λ b s. refl;
  }

  instance abbrev pub circle_ledger : HasLedger W (Store W)
  circle_ledger = record { ledger = λ s. s.tokens; set_ledger = λ w s. record s { tokens = w } }
