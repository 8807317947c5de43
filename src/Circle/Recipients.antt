-- ===== src/Circle/Recipients.antt =====
-- Who packages/circle/src/payout.rs lets receive a payout.
use moistello_contracts.Prelude.{
  ℕ, ◌≡◌, sym, ap, subst, ◌≤◌, ◌%◌, ◌+◌, ◌/◌, ltb, ltb→le, false, ◌&&◌, not, ◌==◌, leb, ◌⊎◌, inl,
  inr, Option, none, some, List, [], ◌∷◌, arith, Bool-cases, ==_iff,
}
use moistello_contracts.Soroban.Contract.{Address, unwrap_or}
use moistello_contracts.Soroban.Map.{Map, get, set, get-set, address_key}
use moistello_contracts.Soroban.Yields.{
  Yields, Yields-fail_if, Yields-ok_or, Yields-last, Yields-call, Yields-always, Any, Any-map, Each,
}
use moistello_contracts.Circle.Types.{Circle, Member, AuctionBid, Store, member_active}
use moistello_contracts.Circle.Contribute.{find_member}
use moistello_contracts.Circle.Payout.{
  is_paid, ensure_active_unpaid_member, pos_to_addr, check_winner, best_bid, resolve_fixed,
  resolve_auction, resolve_vote, most_voted, tally_votes, count_votes, count_active,
}

-- The member is the account's, is active, and its position has not been paid.
abbrev pub IsDue : Circle → Address → Member → Type 0
IsDue circle account m =
    (m.address ≡ account)
    × ((m.status ≡ member_active) × (is_paid circle.payout_bitmap m.position ≡ false))

abbrev pub HasDue : Circle → Address → List Member → Type 0
HasDue circle account members = Any (IsDue circle account) members

found-Any :
    (P : Member → Type 0) (account : Address) (members : List Member) (m : Member)
    → find_member account members ≡ some m
    → (m.address ≡ account → P m)
    → Any P members
found-Any P account [] m found h = cc
found-Any P account (n ∷ members) m found h = elim (Bool-cases (n.address == account)) [
  | inl same ↦
      let first : some n ≡ some m = rw same at found in
      let e : n ≡ m = cc in
      let owner : n.address ≡ account = (==_iff n.address account).0 same in
      inl (subst P (sym e) (h (subst (λ x. x.address ≡ account) e owner)))
  | inr other ↦ inr (found-Any P account members m (rw other at found) h)
]

active_status : (m : Member) → not (m.status == member_active) ≡ false → m.status ≡ member_active
active_status m h = ground arith

check_winner-HasDue :
    (circle : Circle) (members : List Member) (winner : Address)
    → Yields (λ _. HasDue circle winner members) (check_winner circle members winner)
unfolding check_winner ensure_active_unpaid_member
check_winner-HasDue circle members winner =
    Yields-ok_or _ (find_member winner members) _ _ λ m found.
      Yields-fail_if _ (is_paid circle.payout_bitmap m.position) _ _ λ unpaid.
        Yields-fail_if _ (not (m.status == member_active)) _ _ λ active. Yields-always _ (
          found-Any (IsDue circle winner) winner members m found
            (λ e. (e, (active_status m active, unpaid))))

pub indexed-Any :
    (position : ℕ) (account : Address) (members : List Member) (index : Map ℕ Address)
    → get position (pos_to_addr members index) ≡ some account
    → (get position index ≡ some account)
      ⊎ Any
          (λ m. (m.address ≡ account) × ((m.status ≡ member_active) × (m.position ≡ position)))
          members
indexed-Any position account [] index found = inl found
indexed-Any position account (m ∷ members) index found =
    elim (Bool-cases (m.status == member_active)) [
      | inl active ↦
          let status : m.status ≡ member_active = (==_iff m.status member_active).0 active in
          elim (indexed-Any position account members (set m.position m.address index)
            (rw active at found)) [
              | inr later ↦ inr (inr later)
              | inl held ↦
                  let read = rw (get-set m.position position m.address index) at held in
                  elim (Bool-cases (m.position == position)) [
                    | inl same ↦
                        let own : some m.address ≡ some account = rw same at read in
                        let owner : m.address ≡ account = cc in
                        inr (inl (owner, (status, (==_iff m.position position).0 same)))
                    | inr other ↦ inl (rw other at read)
                  ]
            ]
      | inr inactive ↦ elim (indexed-Any position account members index (rw inactive at found)) [
        | inl held ↦ inl held
        | inr later ↦ inr (inr later)
      ]
    ]

-- The bids of the round offer no more than this.
abbrev pub IsBest : ℕ → ℕ → AuctionBid → Type 0
IsBest round bips b = b.round ≡ round → b.discount_bips ≤ bips

best_bid-IsBest :
    (round max_bps : ℕ) (winner : Option AuctionBid) (bids : List AuctionBid) (b : AuctionBid)
    → ((c : AuctionBid) → winner ≡ some c → c.discount_bips ≡ max_bps)
    → best_bid round max_bps winner bids ≡ some b
    → (max_bps ≤ b.discount_bips) × Each (IsBest round b.discount_bips) bids
best_bid-IsBest round max_bps winner [] b inv found = (omega (arith, inv b found), tt)
best_bid-IsBest round max_bps winner (c ∷ bids) b inv found =
    elim (Bool-cases (c.round == round && leb max_bps c.discount_bips)) [
      | inl better ↦
          let rest =
            best_bid-IsBest round c.discount_bips (some c) bids b
              (λ d e. let same : c ≡ d = cc in ap (λ x. x.discount_bips) (sym same))
              (rw better at found) in
          let above : max_bps ≤ c.discount_bips = ground arith in
          (omega (arith, above, rest.0), (λ _. rest.0, rest.1))
      | inr worse ↦
          let rest = best_bid-IsBest round max_bps winner bids b inv (rw worse at found) in
          (rest.0, (λ e. ground (arith, worse, rest.0), rest.1))
    ]

module _ {W : Type 0} where
  -- If a fixed round finds a recipient, the account belongs to a stored member that is active, whose
  -- position is the number of the round modulo the number of seats, and that position has not been
  -- paid.
  pub resolve_fixed-HasDue :
      (s : Store W) (circle : Circle) (round : ℕ)
      → Yields
          (λ account.
            Any
              (λ m. IsDue circle account m × (m.position ≡ round % circle.max_members))
              (unwrap_or [] s.members))
          (resolve_fixed s circle round)
  unfolding resolve_fixed get
  resolve_fixed-HasDue s circle round = elim (Bool-cases (circle.max_members == 0)) [
    | inl empty ↦ rw empty tt
    | inr some_members ↦ rw some_members (
        Yields-fail_if _ (is_paid circle.payout_bitmap (round % circle.max_members)) _ _ λ unpaid.
          Yields-ok_or _ s.members _ _ λ members listed.
            Yields-last _ (get (round % circle.max_members) (pos_to_addr members [])) _
              λ account found.
                rw listed
                  (elim (indexed-Any (round % circle.max_members) account members [] found) [
                    | inl none_there ↦ cc
                    | inr there ↦
                        Any-map
                          (λ m. IsDue circle account m × (m.position ≡ round % circle.max_members))
                          (λ m h. (
                            (
                              h.0,
                              (
                                h.1.0,
                                subst (λ p. is_paid circle.payout_bitmap p ≡ false) (sym h.1.1)
                                    unpaid,
                              ),
                            ),
                            h.1.1,
                          ))
                          members there
                  ]))
  ]

  -- An auction round that finds a winner pays an active member whose position has not been paid, and
  -- the discount that comes with the winner is exceeded by no bid of the round.
  pub resolve_auction-HasDue :
      (s : Store W) (circle : Circle) (round : ℕ)
      → Yields
          (λ r.
            HasDue circle r.0 (unwrap_or [] s.members)
            × Each (IsBest round r.1) (unwrap_or [] s.bids))
          (resolve_auction s circle round)
  unfolding resolve_auction
  resolve_auction-HasDue s circle round = Yields-ok_or _ s.members _ _ λ members listed.
      Yields-ok_or _ (best_bid round 0 none (unwrap_or [] s.bids)) _ _ λ winner best.
        Yields-call _ (λ _. HasDue circle winner.bidder members)
          (check_winner circle members winner.bidder) _
          (check_winner-HasDue circle members winner.bidder)
          (λ _ due. (
            rw listed due,
            (best_bid-IsBest round 0 none (unwrap_or [] s.bids) winner (λ c e. cc) best).1,
          ))

  -- A vote round that finds a winner pays an active member whose position has not been paid, and
  -- more than half as many votes as there are active members were cast for the round.
  pub resolve_vote-HasDue :
      (s : Store W) (circle : Circle) (round : ℕ)
      → Yields
          (λ account.
            HasDue circle account (unwrap_or [] s.members)
            × (count_active (unwrap_or [] s.members) / 2 + 1
                ≤ count_votes round (unwrap_or [] s.votes)))
          (resolve_vote s circle round)
  unfolding resolve_vote
  resolve_vote-HasDue s circle round = Yields-ok_or _ s.members _ _ λ members listed.
      Yields-fail_if _
        (ltb (count_votes round (unwrap_or [] s.votes)) (count_active members / 2 + 1)) _ _
        λ quorum.
          Yields-ok_or _ (most_voted 0 none (tally_votes round [] (unwrap_or [] s.votes))) _ _
            λ winner _.
              Yields-call _ (λ _. HasDue circle winner members) (check_winner circle members winner)
                _ (check_winner-HasDue circle members winner)
                (λ _ due.
                  let held : HasDue circle winner (unwrap_or [] s.members) = rw listed due in
                  (
                    held,
                    ltb→le (count_votes round (unwrap_or [] s.votes))
                        (count_active (unwrap_or [] s.members) / 2 + 1) (rw listed quorum),
                  ))
