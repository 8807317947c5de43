-- ===== src/Circle/Draws.antt =====
-- Who a random round pays: the draw of packages/circle/src/payout.rs, and the choice by the payout
-- type in packages/circle/src/contract.rs.
use moistello_contracts.Prelude.{
  ℕ, ◌≡◌, refl, sym, ◌∙◌, subst, false, not, ◌&&◌, ◌==◌, Bool-cases, inl, inr, arith, Option, none,
  some, List, [], ◌∷◌,
}
use moistello_contracts.Soroban.Result.{Result, ok, err, trap}
use moistello_contracts.Soroban.Contract.{Address, unwrap_or, put_back, lift}
use moistello_contracts.Soroban.Outcome.{Gives, Gives-call, Gives-ok_or, Gives-map}
use moistello_contracts.Soroban.Map.{get, address_key}
use moistello_contracts.Soroban.Yields.{Yields, Yields-last, Yields-weaken, Any-map}
use moistello_contracts.Common.Vrf.{Vrf}
use moistello_contracts.Circle.Types.{
  Circle, Member, CircleError, invalid_amount, Store, member_active, payout_random, payout_fixed,
  payout_auction, payout_vote,
}
use moistello_contracts.Circle.Payout.{
  is_paid, pos_to_addr, first_unpaid, first_due, or_else, range, draw_recipient, resolve_fixed,
  resolve_auction, resolve_vote,
}
use moistello_contracts.Circle.Resolve.{
  draw_positions, resolve_random, auction_recipient, resolve_recipient,
}
use moistello_contracts.Circle.Recipients.{
  IsDue, HasDue, indexed-Any, resolve_fixed-HasDue, resolve_auction-HasDue, resolve_vote-HasDue,
}

first_unpaid-HasDue :
    (circle : Circle) (account : Address) (members : List Member) (positions : List ℕ)
    → first_unpaid circle.payout_bitmap (pos_to_addr members []) positions ≡ some account
    → HasDue circle account members
unfolding get
first_unpaid-HasDue circle account members [] found = cc
first_unpaid-HasDue circle account members (p ∷ positions) found =
    elim (Bool-cases (is_paid circle.payout_bitmap p)) [
      | inl paid ↦ first_unpaid-HasDue circle account members positions (rw paid at found)
      | inr unpaid ↦
          by_lookup (λ later. first_unpaid-HasDue circle account members positions later) unpaid
            (get p (pos_to_addr members [])) refl (rw unpaid at found)
    ]
  where
    by_lookup :
        (first_unpaid circle.payout_bitmap (pos_to_addr members []) positions ≡ some account
          → HasDue circle account members)
        → is_paid circle.payout_bitmap p ≡ false
        → (o : Option Address) → get p (pos_to_addr members []) ≡ o
        → (elim o [
          | some a ↦ some a
          | none ↦ first_unpaid circle.payout_bitmap (pos_to_addr members []) positions
        ])
          ≡ some account
        → HasDue circle account members
    by_lookup rest unpaid none read later = rest later
    by_lookup rest unpaid (some a) read this =
        let e : a ≡ account = cc in
        elim (indexed-Any p account members []
          (subst (λ x. get p (pos_to_addr members []) ≡ some x) e read)) [
            | inl none_there ↦ cc
            | inr there ↦
                Any-map (IsDue circle account)
                  (λ m h. (
                    h.0,
                    (h.1.0, subst (λ q. is_paid circle.payout_bitmap q ≡ false) (sym h.1.1) unpaid),
                  ))
                  members there
          ]

first_due-HasDue :
    (circle : Circle) (account : Address) (members : List Member)
    → first_due circle.payout_bitmap members ≡ some account
    → HasDue circle account members
first_due-HasDue circle account [] found = cc
first_due-HasDue circle account (m ∷ members) found =
    elim (Bool-cases (m.status == member_active && not (is_paid circle.payout_bitmap m.position))) [
      | inl due ↦
          let this : some m.address ≡ some account = rw due at found in
          let e : m.address ≡ account = cc in inl (e, (ground arith, ground arith))
      | inr other ↦ inr (first_due-HasDue circle account members (rw other at found))
    ]

either :
    (Q : Address → Type 0) (o p : Option Address)
    → ((a : Address) → o ≡ some a → Q a)
    → ((a : Address) → p ≡ some a → Q a)
    → (a : Address) → or_else o p ≡ some a
    → Q a
either Q none p f g a found = g a found
either Q (some b) p f g a found = f a found

draw_recipient-HasDue :
    (circle : Circle) (positions : List ℕ) (members : List Member)
    → Yields (λ account. HasDue circle account members) (draw_recipient circle positions members)
unfolding draw_recipient
draw_recipient-HasDue circle positions members =
    Yields-last _
      (or_else (first_unpaid circle.payout_bitmap (pos_to_addr members []) positions) (
        or_else
          (first_unpaid circle.payout_bitmap (pos_to_addr members []) (range 0 circle.max_members))
          (first_due circle.payout_bitmap members)))
      _
      (either (λ account. HasDue circle account members)
        (first_unpaid circle.payout_bitmap (pos_to_addr members []) positions)
        (or_else
          (first_unpaid circle.payout_bitmap (pos_to_addr members []) (range 0 circle.max_members))
          (first_due circle.payout_bitmap members))
        (λ a found. first_unpaid-HasDue circle a members positions found)
        (either (λ account. HasDue circle account members)
          (first_unpaid circle.payout_bitmap (pos_to_addr members []) (range 0 circle.max_members))
          (first_due circle.payout_bitmap members)
          (λ a found. first_unpaid-HasDue circle a members (range 0 circle.max_members) found)
          (λ a found. first_due-HasDue circle a members found)))

module _ {W : Type 0} where
  abbrev pub members_of : Store W → List Member
  members_of s = unwrap_or [] s.members

  lift-Gives :
      {A : Type 0} (Q : A → Type 0) (r : Result CircleError A) (s : Store W)
      → Yields Q r
      → Gives (λ a s'. Q a × (s'.members ≡ s.members)) (lift r s)
  lift-Gives Q (ok a) s q = (q, refl)
  lift-Gives Q (err e) s q = tt
  lift-Gives Q trap s q = tt

  put_back-Gives :
      {F A : Type 0} (s : Store W) (r : Result F (A × Vrf))
      → Gives
          (λ a s'. s'.members ≡ s.members)
          (put_back (λ v s. record s { vrf = v }) s invalid_amount r)
  put_back-Gives s (ok r) = refl
  put_back-Gives s (err e) = tt
  put_back-Gives s trap = tt

  -- The recipient is due among the members that are stored, before and after.
  abbrev pub PaysDue : Circle → Store W → Address → Store W → Type 0
  PaysDue circle s account s' = HasDue circle account (members_of s) × (s'.members ≡ s.members)

  resolve_random-PaysDue :
      (sha256 : List ℕ → List ℕ) (circle : Circle) (round : ℕ) (s : Store W)
      → Gives (PaysDue circle s) (resolve_random sha256 circle round s)
  unfolding resolve_random
  resolve_random-PaysDue sha256 circle round s =
      Gives-call _ (draw_positions sha256 circle round s) (λ a s'. s'.members ≡ s.members) _
        (put_back-Gives s _)
        λ positions s1 same. Gives-ok_or _ s1.members _ _ s1 λ members read.
          let stored : s.members ≡ some members = sym same ∙ read in
          Gives-map _ (PaysDue circle s) (lift (draw_recipient circle positions members) s1)
            (λ a s2 h. (rw stored h.0, h.1 ∙ same))
            (lift-Gives (λ account. HasDue circle account members)
              (draw_recipient circle positions members) s1
              (draw_recipient-HasDue circle positions members))

  auction_recipient-PaysDue :
      (circle : Circle) (round : ℕ) (s : Store W)
      → Gives (PaysDue circle s) (auction_recipient circle round s)
  auction_recipient-PaysDue circle round s =
      Gives-call _ (lift (resolve_auction s circle round) s)
        (λ r s'. HasDue circle r.0 (members_of s) × (s'.members ≡ s.members)) _
        (lift-Gives (λ r. HasDue circle r.0 (members_of s)) (resolve_auction s circle round) s
          (Yields-weaken (λ r h. h.0) (resolve_auction s circle round)
            (resolve_auction-HasDue s circle round)))
        (λ r s1 h. h)

  -- Whatever the payout type of the circle, the recipient that a round resolves to belongs to a
  -- stored member that is active and whose position has not been paid; the stored members are left
  -- as they are.
  pub resolve_recipient-PaysDue :
      (sha256 : List ℕ → List ℕ) (circle : Circle) (round : ℕ) (s : Store W)
      → Gives (PaysDue circle s) (resolve_recipient sha256 circle round s)
  unfolding resolve_recipient
  resolve_recipient-PaysDue sha256 circle round s =
      elim (Bool-cases (circle.payout_type == payout_random)) [
        | inl random ↦ rw random (resolve_random-PaysDue sha256 circle round s)
        | inr r ↦ rw r (elim (Bool-cases (circle.payout_type == payout_fixed)) [
          | inl fixed ↦ rw fixed (
              lift-Gives (λ account. HasDue circle account (members_of s))
                (resolve_fixed s circle round) s
                (Yields-weaken
                  (λ a there. Any-map (IsDue circle a) (λ m h. h.0) (members_of s) there)
                  (resolve_fixed s circle round) (resolve_fixed-HasDue s circle round)))
          | inr f ↦ rw f (elim (Bool-cases (circle.payout_type == payout_auction)) [
            | inl auction ↦ rw auction (auction_recipient-PaysDue circle round s)
            | inr a ↦ rw a (elim (Bool-cases (circle.payout_type == payout_vote)) [
              | inl vote ↦ rw vote (
                  lift-Gives (λ account. HasDue circle account (members_of s))
                    (resolve_vote s circle round) s
                    (Yields-weaken (λ a h. h.0) (resolve_vote s circle round)
                      (resolve_vote-HasDue s circle round)))
              | inr v ↦ rw v tt
            ])
          ])
        ])
      ]
