-- ===== src/Circle/Membership.antt =====
-- The members of a circle over a history of joins and contributions, packages/circle/src/contract.rs.
use moistello_contracts.Prelude.{ℕ, ℤ, pos, ltb_ℤ, Option, none, some, List, [], ◌∷◌}
use moistello_contracts.Soroban.Contract.{Address, Env, ◌>>◌, modify, only_if}
use moistello_contracts.Soroban.Outcome.{commit_keeps, after_ok_or, after_require, Post-map}
use moistello_contracts.Soroban.Keeps.{
  Keeps, keeping, Keeps-modify, Keeps-only_if, Keeps-bind, Keeps-map_err,
}
use moistello_contracts.Soroban.Turns.{Turns, Turns-last, Turns-through}
use moistello_contracts.Common.Pause.{Keeps-when_not_paused}
use moistello_contracts.Common.Reentrancy.{Keeps-guarded}
use moistello_contracts.Common.TokenTransfer.{TokenLedger, client_transfer, Keeps-client_transfer}
use moistello_contracts.Circle.Types.{
  Circle, CircleError, Store, circle_lock, circle_pause, circle_ledger,
}
use moistello_contracts.Circle.Contribute.{
  when_not_paused, check_listed_member, check_status, check_not_contributed, record_round_fee,
  record_contribution, reward_on_time, apply_penalty, charge_late_penalty, admit_contribution,
  take_contribution, contribute_unlocked, contribute,
}
use moistello_contracts.Circle.Join.{members_of, admit_member, enlist, join, join_unlocked}
use moistello_contracts.Circle.Seats.{SeatsOf, IsSeated, admit_member-HasSeat, enlist-IsSeated}
use moistello_contracts.Circle.Calls.{Call, apply, step, run}

-- The members sit well in the stored circle and in the one that the function has read.
abbrev IsSeatedWith : {W : Type 0} → Circle → Store W → Type 0
IsSeatedWith circle s = IsSeated s × SeatsOf circle (members_of s)

module _ {W : Type 0} (t : TokenLedger W) where
  join_unlocked-IsSeated :
      (env : Env) (member : Address) → Keeps IsSeated (join_unlocked t env member)
  unfolding join_unlocked
  join_unlocked-IsSeated env member = record {
    holds = λ s h.
        after_require _ (env.authorized member) _ s
          λ _. after_ok_or _ s.circle _ _ s λ circle found. (rest circle).turned s (rw found at h);
  }
    where
      rest :
          (circle : Circle)
          → Turns {S = Store W}
              (λ s. SeatsOf circle (members_of s))
              IsSeated
              (admit_member circle member
                >> (only_if
                      (ltb_ℤ (pos 0) circle.collateral_amount)
                      (client_transfer t circle.token member circle.id circle.collateral_amount)
                    >> enlist circle member env.timestamp))
      rest circle = Turns-through _ (admit_member-HasSeat circle member) (λ _.
          Turns-last _
            (Keeps-only_if (ltb_ℤ (pos 0) circle.collateral_amount) (λ _.
              Keeps-client_transfer t circle.token member circle.id circle.collateral_amount
                (λ w s h. h)))
            (λ _. enlist-IsSeated circle member env.timestamp))

  check_status-IsSeatedWith :
      (circle : Circle) (member : Address) (status : Option ℕ)
      → Keeps {S = Store W} (IsSeatedWith circle) (check_status member status)
  unfolding check_status check_listed_member
  check_status-IsSeatedWith circle member none = search keeping depth 14
  check_status-IsSeatedWith circle member (some status) = search keeping depth 14

  record_round_fee-IsSeatedWith :
      (circle : Circle) (round : ℕ) (fee penalty : ℤ)
      → Keeps {S = Store W} (IsSeatedWith circle) (record_round_fee round fee penalty)
  unfolding record_round_fee
  record_round_fee-IsSeatedWith circle round fee penalty = search keeping depth 14

  admit_contribution-IsSeatedWith :
      (circle : Circle) (member : Address) (amount : ℤ) (round : ℕ)
      → Keeps {S = Store W} (IsSeatedWith circle) (admit_contribution circle member amount round)
  unfolding admit_contribution check_not_contributed
  admit_contribution-IsSeatedWith circle member amount round =
      search (keeping, check_status-IsSeatedWith) depth 24

  -- The circle that a penalty writes back is the one that was read, but for its fees.
  write_fees-IsSeatedWith :
      (circle : Circle) (total_fees : ℤ)
      → Keeps {S = Store W} {E = CircleError}
          (IsSeatedWith circle)
          (modify (λ s. record s { circle = some (record circle { total_fees = total_fees }) }))
  write_fees-IsSeatedWith circle total_fees = Keeps-modify (λ s h. (h.1, h.1))

  charge_late_penalty-IsSeatedWith :
      (circle : Circle) (member : Address) (amount : ℤ) (round : ℕ)
      → Keeps {S = Store W} (IsSeatedWith circle) (charge_late_penalty t circle member amount round)
  unfolding charge_late_penalty apply_penalty
  charge_late_penalty-IsSeatedWith circle member amount round =
      search
        (keeping, write_fees-IsSeatedWith, record_round_fee-IsSeatedWith, Keeps-client_transfer)
        depth 24

  take_contribution-IsSeatedWith :
      (env : Env) (circle : Circle) (member : Address) (amount : ℤ) (round : ℕ)
      → Keeps {S = Store W}
          (IsSeatedWith circle)
          (take_contribution t env circle member amount round)
  unfolding take_contribution record_contribution reward_on_time
  take_contribution-IsSeatedWith env circle member amount round =
      search (keeping, charge_late_penalty-IsSeatedWith, Keeps-client_transfer) depth 24

  contribute_unlocked-IsSeated :
      (env : Env) (member : Address) (amount : ℤ) (round : ℕ)
      → Keeps IsSeated (contribute_unlocked t env member amount round)
  unfolding contribute_unlocked
  contribute_unlocked-IsSeated env member amount round = record {
    holds = λ s h. after_require _ (env.authorized member) _ s λ _.
        after_ok_or _ s.circle _ _ s λ circle found.
          Post-map (IsSeatedWith circle) IsSeated _ (λ x b. b.0)
            ((rest circle).holds s (h, rw found at h));
  }
    where
      rest :
          (circle : Circle)
          → Keeps {S = Store W} (IsSeatedWith circle) (
              admit_contribution circle member amount round
              >> take_contribution t env circle member amount round)
      rest circle =
          Keeps-bind (admit_contribution-IsSeatedWith circle member amount round)
            (λ _. take_contribution-IsSeatedWith env circle member amount round)

  apply-IsSeated : (env : Env) (c : Call) → Keeps IsSeated (apply t env c)
  unfolding apply join contribute when_not_paused
  apply-IsSeated env (Call.join member) =
      Keeps-bind (Keeps-map_err _ Keeps-when_not_paused)
        (λ _. Keeps-guarded _ (λ b s h. h) (join_unlocked-IsSeated env member))
  apply-IsSeated env (Call.contribute member amount round) =
      Keeps-bind (Keeps-map_err _ Keeps-when_not_paused)
        (λ _. Keeps-guarded _ (λ b s h. h) (contribute_unlocked-IsSeated env member amount round))

  pub step-IsSeated : (env : Env) (c : Call) (s : Store W) → IsSeated s → IsSeated (step t env c s)
  unfolding step
  step-IsSeated env c s h =
      commit_keeps IsSeated s (apply t env c s) h ((apply-IsSeated env c).holds s h)

  -- After any history of joins and contributions, from a circle whose members sit well, such as one
  -- without members: each member's position is their place in the list, no address is listed twice,
  -- and the circle's count is the number of members, which is at most the size of the circle.
  pub run-IsSeated : (cs : List (Env × Call)) (s : Store W) → IsSeated s → IsSeated (run t cs s)
  unfolding run
  run-IsSeated [] s h = h
  run-IsSeated ((env, c) ∷ cs) s h = run-IsSeated cs (step t env c s) (step-IsSeated env c s h)
