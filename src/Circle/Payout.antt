-- ===== src/Circle/Payout.antt =====
-- packages/circle/src/payout.rs: who receives the pool of a round. The functions
-- that write to the storage are in Resolve.
use moistello_contracts.Prelude.{
  ℕ, zero, suc, ◌+◌, ◌/◌, ◌%◌, ◌^◌, Bool, ◌&&◌, not, ◌==◌, leb, ltb, if◌then◌else◌, Option, none,
  some, List, [], ◌∷◌,
}
use moistello_contracts.Soroban.Result.{Result, ok, trap, ◌>>=◌, ◌>>◌, result_ok_or, result_fail_if}
use moistello_contracts.Soroban.Contract.{Address, unwrap_or}
use moistello_contracts.Soroban.Map.{Map, get, set, address_key}
use moistello_contracts.Circle.Types.{
  Circle, Member, AuctionBid, VoteEntry, CircleError, not_initialized, not_member,
  vote_quorum_not_met, payout_already_executed, invalid_member_status, Store, member_active,
}
use moistello_contracts.Circle.Contribute.{find_member}

-- `(bitmap & (1u128 << position)) != 0`. The shift takes the position modulo 128.
unfoldable pub is_paid : ℕ → ℕ → Bool
is_paid bitmap position = bitmap / 2 ^ (position % 128) % 2 == 1

unfoldable pub ensure_active_unpaid_member : Circle → Member → Result CircleError (Unit {0})
ensure_active_unpaid_member circle member = do
  result_fail_if (not (member.status == member_active)) invalid_member_status
  result_fail_if (is_paid circle.payout_bitmap member.position) payout_already_executed

-- The loop that fills `pos_to_addr`: a later active member at a position replaces an earlier one.
abbrev pub pos_to_addr : List Member → Map ℕ Address → Map ℕ Address
pos_to_addr [] index = index
pos_to_addr (m ∷ members) index =
    pos_to_addr members
      (if m.status == member_active then set m.position m.address index else index)

-- The end that an auction and a vote share: the first entry of the winner in the list.
unfoldable pub check_winner : Circle → List Member → Address → Result CircleError (Unit {0})
check_winner circle members winner = do
  m ← result_ok_or (find_member winner members) not_member
  result_fail_if (is_paid circle.payout_bitmap m.position) payout_already_executed
  ensure_active_unpaid_member circle m

-- The loop over the bids: the last of the bids with the highest discount.
abbrev pub best_bid : ℕ → ℕ → Option AuctionBid → List AuctionBid → Option AuctionBid
best_bid round max_bps winner [] = winner
best_bid round max_bps winner (b ∷ bids) =
    let better = b.round == round && leb max_bps b.discount_bips in
    best_bid round (if better then b.discount_bips else max_bps) (if better then some b else winner)
      bids

-- One more vote for the address. A map is kept in the order of its keys, in which the source reads it.
abbrev pub add_vote : Address → List (Address × ℕ) → List (Address × ℕ)
add_vote a [] = (a, 1) ∷ []
add_vote a ((b, n) ∷ tally) =
    if a == b
    then (b, n + 1) ∷ tally
    else if ltb a b
    then (a, 1) ∷ (b, n) ∷ tally
    else (b, n) ∷ add_vote a tally

-- The loop over the votes. A list has fewer than 2 ^ 32 elements, so its counters do not overflow.
abbrev pub tally_votes : ℕ → List (Address × ℕ) → List VoteEntry → List (Address × ℕ)
tally_votes round tally [] = tally
tally_votes round tally (v ∷ votes) =
    tally_votes round (if v.round == round then add_vote v.vote_for tally else tally) votes

abbrev pub count_votes : ℕ → List VoteEntry → ℕ
count_votes round [] = 0
count_votes round (v ∷ votes) = (if v.round == round then 1 else 0) + count_votes round votes

-- The loop over the tally: the first of the addresses with the most votes.
abbrev pub most_voted : ℕ → Option Address → List (Address × ℕ) → Option Address
most_voted best_count best [] = best
most_voted best_count best ((a, n) ∷ tally) =
    most_voted (if ltb best_count n then n else best_count)
      (if ltb best_count n then some a else best) tally

abbrev pub count_active : List Member → ℕ
count_active [] = 0
count_active (m ∷ members) = (if m.status == member_active then 1 else 0) + count_active members

module _ {W : Type 0} where
  -- `round % circle.max_members` traps on a circle for no members.
  unfoldable pub resolve_fixed : Store W → Circle → ℕ → Result CircleError Address
  resolve_fixed s circle round = if circle.max_members == 0 then trap else (do
    let position = round % circle.max_members
    result_fail_if (is_paid circle.payout_bitmap position) payout_already_executed
    members ← result_ok_or s.members not_initialized
    result_ok_or (get position (pos_to_addr members [])) not_member)

  unfoldable pub resolve_auction : Store W → Circle → ℕ → Result CircleError (Address × ℕ)
  resolve_auction s circle round = do
    members ← result_ok_or s.members not_initialized
    winner ← result_ok_or (best_bid round 0 none (unwrap_or [] s.bids)) vote_quorum_not_met
    check_winner circle members winner.bidder
    ok (winner.bidder, winner.discount_bips)

  unfoldable pub resolve_vote : Store W → Circle → ℕ → Result CircleError Address
  resolve_vote s circle round = do
    members ← result_ok_or s.members not_initialized
    let votes = unwrap_or [] s.votes
    let quorum = count_active members / 2 + 1
    result_fail_if (ltb (count_votes round votes) quorum) vote_quorum_not_met
    winner ← result_ok_or (most_voted 0 none (tally_votes round [] votes)) vote_quorum_not_met
    check_winner circle members winner
    ok winner

-- The random positions that the VRF has drawn, then all positions, then all members: the first loops
-- stop at a position that has not been paid and has an active member.
abbrev pub first_unpaid : ℕ → Map ℕ Address → List ℕ → Option Address
first_unpaid bitmap index [] = none
first_unpaid bitmap index (position ∷ positions) =
    let rest = first_unpaid bitmap index positions in
    if is_paid bitmap position
    then rest
    else elim (get position index) [ some account ↦ some account | none ↦ rest ]

-- `k..k + n`
abbrev pub range : ℕ → ℕ → List ℕ
range k zero = []
range k (suc n) = k ∷ range (suc k) n

abbrev pub first_due : ℕ → List Member → Option Address
first_due bitmap [] = none
first_due bitmap (m ∷ members) =
    if m.status == member_active && not (is_paid bitmap m.position)
    then some m.address
    else first_due bitmap members

abbrev pub or_else {ℓ} : {A : Type ℓ} → Option A → Option A → Option A
or_else none o = o
or_else (some a) o = some a

unfoldable pub draw_recipient : Circle → List ℕ → List Member → Result CircleError Address
draw_recipient circle positions members =
    let index = pos_to_addr members [] in
    result_ok_or
      (or_else (first_unpaid circle.payout_bitmap index positions) (
        or_else (first_unpaid circle.payout_bitmap index (range 0 circle.max_members))
          (first_due circle.payout_bitmap members)))
      payout_already_executed
