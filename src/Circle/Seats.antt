-- ===== src/Circle/Seats.antt =====
-- The list of members that `join` of packages/circle/src/contract.rs builds.
use moistello_contracts.Prelude.{
  ℕ, suc, ◌+◌, ◌≤◌, ◌≡◌, refl, Bool, true, false, ◌==◌, leb, if◌then◌else◌, none, some, List, [],
  ◌∷◌, arith, length, length-push_back, push_back, checked_add_u32, ◌&&◌, not, ltb,
}
use moistello_contracts.Soroban.Contract.{Address, unwrap_or}
use moistello_contracts.Soroban.Outcome.{after_fail_if, last_fail_if, after_ok_or}
use moistello_contracts.Soroban.Turns.{Turns}
use moistello_contracts.Reputation.Storage.{get_score}
use moistello_contracts.Circle.Types.{Circle, Member, Store, status_pending, status_active}
use moistello_contracts.Circle.Join.{
  is_barred, is_listed, new_member, members_of, enlist, admit_member,
}

-- The positions count up from k.
abbrev pub Numbered : ℕ → List Member → Type 0
Numbered k [] = Unit
Numbered k (m ∷ members) = (m.position ≡ k) × Numbered (suc k) members

abbrev pub NoRepeats : List Member → Type 0
NoRepeats [] = Unit
NoRepeats (m ∷ members) = (is_listed m.address members ≡ false) × NoRepeats members

-- The positions of the members are their places in the list, no address is listed twice, and the
-- count of the circle is their number, at most the size of the circle.
pub record Seats (max_members member_count : ℕ) (members : List Member) : Type 0 where
  pub numbered : Numbered 0 members
  pub distinct : NoRepeats members
  pub bounded : length members ≤ max_members
  pub counted : member_count ≡ length members

abbrev pub SeatsOf : Circle → List Member → Type 0
SeatsOf circle members = Seats circle.max_members circle.member_count members

-- Nothing is asked of a storage without a circle.
abbrev pub IsSeated : {W : Type 0} → Store W → Type 0
IsSeated s = elim s.circle [ none ↦ Unit | some circle ↦ SeatsOf circle (members_of s) ]

Numbered-push_back :
    (k : ℕ) (members : List Member) (account : Address) (position now : ℕ)
    → position ≡ k + length members
    → Numbered k members
    → Numbered k (push_back members (new_member account position now))
Numbered-push_back k [] account position now at h = (omega (arith, at), tt)
Numbered-push_back k (m ∷ members) account position now at h =
    (h.0, Numbered-push_back (suc k) members account position now (omega (arith, at)) h.1)

is_listed-push_back :
    (a account : Address) (members : List Member) (position now : ℕ)
    → (a == account) ≡ false
    → is_listed a members ≡ false
    → is_listed a (push_back members (new_member account position now)) ≡ false
is_listed-push_back a account [] position now other h = ground arith
is_listed-push_back a account (m ∷ members) position now other h =
    ground (arith, is_listed-push_back a account members position now other)

NoRepeats-push_back :
    (account : Address) (members : List Member) (position now : ℕ)
    → is_listed account members ≡ false
    → NoRepeats members
    → NoRepeats (push_back members (new_member account position now))
NoRepeats-push_back account [] position now fresh h = (refl, tt)
NoRepeats-push_back account (m ∷ members) position now fresh h = (
  is_listed-push_back m.address account members position now (ground (arith, fresh)) h.0,
  NoRepeats-push_back account members position now (ground (arith, fresh)) h.1,
)

take_seat :
    (max_members member_count : ℕ) (members : List Member) (account : Address) (now n : ℕ)
    → Seats max_members member_count members
    → is_listed account members ≡ false
    → leb max_members (length members) ≡ false
    → checked_add_u32 member_count 1 ≡ some n
    → Seats max_members n (push_back members (new_member account (length members) now))
take_seat max_members member_count members account now n seats fresh room counted = record {
  numbered = Numbered-push_back 0 members account (length members) now (omega arith) seats.numbered;
  distinct = NoRepeats-push_back account members (length members) now fresh seats.distinct;
  bounded =
      rw (length-push_back members (new_member account (length members) now))
        (ground (arith, room));
  counted = rw (length-push_back members (new_member account (length members) now)) (
      let next : n ≡ member_count + 1 = ground (arith, counted) in
      omega (arith, next, seats.counted));
}

module _ {W : Type 0} where
  -- What the tests of `join` leave to rely on.
  abbrev pub HasSeat : Circle → Address → Store W → Type 0
  HasSeat circle member s =
      SeatsOf circle (members_of s)
      × ((is_listed member (members_of s) ≡ false)
          × (leb circle.max_members (length (members_of s)) ≡ false))

  pub admit_member-HasSeat :
      (circle : Circle) (member : Address)
      → Turns {S = Store W}
          (λ s. SeatsOf circle (members_of s))
          (HasSeat circle member)
          (admit_member circle member)
  unfolding admit_member
  admit_member-HasSeat circle member = record {
    turned = λ s h. after_fail_if _ (not (circle.status == status_pending)) _ _ s λ _.
        after_fail_if _ (ltb (get_score member s.registry) circle.min_moi_score) _ _ s λ _.
          after_fail_if _ (is_barred (unwrap_or [] s.allowlist) member) _ _ s λ _.
            after_fail_if _ (is_listed member (members_of s)) _ _ s λ fresh.
              last_fail_if (HasSeat circle member) (leb circle.max_members (length (members_of s)))
                _ s λ room. (h, (fresh, room));
  }

  pub enlist-IsSeated :
      (circle : Circle) (member : Address) (now : ℕ)
      → Turns {S = Store W} (HasSeat circle member) IsSeated (enlist circle member now)
  unfolding enlist
  enlist-IsSeated circle member now = record {
    turned = λ s h. after_ok_or _ (checked_add_u32 circle.member_count 1) _ _ s λ n counted.
        by_test n
          (take_seat circle.max_members circle.member_count (members_of s) member now n h.0 h.1.0
            h.1.1 counted)
          (leb circle.max_members n && circle.status == status_pending);
  }
    where
      by_test :
          {members : List Member} (n : ℕ)
          → Seats circle.max_members n members
          → (b : Bool)
          → SeatsOf
              (if b
                then record circle { member_count = n; status = status_active; started_at = now }
                else record circle { member_count = n })
              members
      by_test n seats true = seats
      by_test n seats false = seats
