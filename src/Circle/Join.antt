-- ===== src/Circle/Join.antt =====
-- `join` of packages/circle/src/contract.rs.
use moistello_contracts.Prelude.{
  ℕ, pos, ltb_ℤ, Bool, false, ◌&&◌, ◌||◌, not, ◌==◌, leb, ltb, if◌then◌else◌, some, List, [], ◌∷◌,
  length, push_back, checked_add_u32,
}
use moistello_contracts.Soroban.Contract.{
  Address, Env, ◌>>=◌, ◌>>◌, load, ok_or, fail_if, gets, modify, require_auth, unwrap_or, only_if,
}
use moistello_contracts.Soroban.Map.{set, address_key}
use moistello_contracts.Common.Reentrancy.{guarded}
use moistello_contracts.Common.TokenTransfer.{TokenLedger, client_transfer}
use moistello_contracts.Reputation.Storage.{get_score}
use moistello_contracts.Circle.Types.{
  Circle, Member, not_initialized, not_active, circle_full, already_member, insufficient_moi_score,
  invalid_amount, allowlist_not_permitted, member_joined, Store, Op, publish, circle_lock,
  circle_ledger, status_pending, status_active, member_active,
}
use moistello_contracts.Circle.Rounds.{contributed_in}
use moistello_contracts.Circle.Contribute.{when_not_paused}

-- An allowlist that is not empty and does not hold the address.
abbrev pub is_barred : List Address → Address → Bool
is_barred [] member = false
is_barred (a ∷ allowlist) member = not (contributed_in (a ∷ allowlist) member)

abbrev pub is_listed : Address → List Member → Bool
is_listed member [] = false
is_listed member (m ∷ members) = m.address == member || is_listed member members

abbrev pub new_member : Address → ℕ → ℕ → Member
new_member member position now = record {
  address = member;
  position = position;
  joined_at = now;
  strikes = 0;
  status = member_active;
  exited_at = 0;
  total_contributions = pos 0;
  total_received = pos 0;
}

-- The circle with one more member, which starts it when it is full.
abbrev pub with_count : Circle → ℕ → ℕ → Circle
with_count circle member_count now =
    if leb circle.max_members member_count && circle.status == status_pending
    then record circle { member_count = member_count; status = status_active; started_at = now }
    else record circle { member_count = member_count }

module _ {W : Type 0} where
  abbrev pub members_of : Store W → List Member
  members_of s = unwrap_or [] s.members

  -- The entries that `join` writes.
  unfoldable pub enlist : Circle → Address → ℕ → Op W
  enlist circle member now = do
    members ← gets members_of
    member_count ← ok_or (checked_add_u32 circle.member_count 1) invalid_amount
    modify (λ s. record s {
      circle = some (with_count circle member_count now);
      members = some (push_back members (new_member member (length members) now));
      member_status = set member member_active s.member_status;
    })
    publish (member_joined member (length members))

  -- The tests of `join`.
  unfoldable pub admit_member : Circle → Address → Op W
  admit_member circle member = do
    fail_if (not (circle.status == status_pending)) not_active
    score ← gets (λ s. get_score member s.registry)
    fail_if (ltb score circle.min_moi_score) insufficient_moi_score
    barred ← gets (λ s. is_barred (unwrap_or [] s.allowlist) member)
    fail_if barred allowlist_not_permitted
    again ← gets (λ s. is_listed member (members_of s))
    fail_if again already_member
    full ← gets (λ s. leb circle.max_members (length (members_of s)))
    fail_if full circle_full

module _ {W : Type 0} (t : TokenLedger W) where
  unfoldable pub join_unlocked : Env → Address → Op W
  join_unlocked env member = do
    require_auth env member
    circle ← load (λ s. s.circle) not_initialized
    admit_member circle member
    only_if (ltb_ℤ (pos 0) circle.collateral_amount)
        (client_transfer t circle.token member circle.id circle.collateral_amount)
    enlist circle member env.timestamp

  unfoldable pub join : Env → Address → Op W
  join env member = do when_not_paused; guarded not_active (join_unlocked env member)
