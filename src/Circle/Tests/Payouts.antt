-- ===== src/Circle/Tests/Payouts.antt =====
-- Runs of the choice of a recipient.
use moistello_contracts.Prelude.{pos, ◌≡◌, ◌≤◌, ◌+◌, ◌/◌, ◌%◌, refl, some, [], ◌∷◌}
use moistello_contracts.Soroban.Result.{ok}
use moistello_contracts.Soroban.Contract.{unwrap_or}
use moistello_contracts.Soroban.Map.{get, set}
use moistello_contracts.Soroban.Yields.{Yields, Any, Each}
use moistello_contracts.Circle.Types.{Store}
use moistello_contracts.Circle.Payout.{
  is_paid, check_winner, ensure_active_unpaid_member, resolve_fixed, resolve_auction, resolve_vote,
  count_active, count_votes,
}
use moistello_contracts.Circle.Recipients.{
  IsDue, HasDue, IsBest, resolve_fixed-HasDue, resolve_auction-HasDue, resolve_vote-HasDue,
}
use moistello_contracts.Circle.Tests.{Wallets, opened, both, savings}

-- Both members bid for the first round, the second of them more.
abbrev in_auction : Store Wallets
in_auction = record opened {
  members = some both;
  bids = some (
      record { bidder = 1; discount_bips = 200; round = 0; timestamp = 12; deposit = pos 10 }
      ∷ record { bidder = 2; discount_bips = 300; round = 0; timestamp = 13; deposit = pos 10 }
      ∷ []);
  votes = some (
      record { voter = 1; vote_for = 2; round = 0; timestamp = 14 }
      ∷ record { voter = 2; vote_for = 2; round = 0; timestamp = 15 }
      ∷ []);
}

auction_winner : resolve_auction in_auction savings 0 ≡ ok (2, 300)
unfolding resolve_auction check_winner ensure_active_unpaid_member is_paid
auction_winner = refl

vote_winner : resolve_vote in_auction savings 0 ≡ ok 2
unfolding resolve_vote check_winner ensure_active_unpaid_member is_paid
vote_winner = refl

fixed_recipient : resolve_fixed in_auction savings 1 ≡ ok 2
unfolding resolve_fixed is_paid get set
fixed_recipient = refl

resolve_fixed-HasDue_example :
    Yields
      (λ account. Any (λ m. IsDue savings account m × (m.position ≡ 1 % 2)) both)
      (resolve_fixed in_auction savings 1)
resolve_fixed-HasDue_example = resolve_fixed-HasDue in_auction savings 1

resolve_auction-HasDue_example :
    Yields
      (λ r. HasDue savings r.0 both × Each (IsBest 0 r.1) (unwrap_or [] in_auction.bids))
      (resolve_auction in_auction savings 0)
resolve_auction-HasDue_example = resolve_auction-HasDue in_auction savings 0

resolve_vote-HasDue_example :
    Yields
      (λ account.
        HasDue savings account both
        × (count_active both / 2 + 1 ≤ count_votes 0 (unwrap_or [] in_auction.votes)))
      (resolve_vote in_auction savings 0)
resolve_vote-HasDue_example = resolve_vote-HasDue in_auction savings 0
