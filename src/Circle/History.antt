-- ===== src/Circle/History.antt =====
-- The accounts of packages/circle/src/contract.rs over a history of calls.
use moistello_contracts.Prelude.{ℕ, ℤ, ◌≡◌, false, List, [], ◌∷◌, some, none, Option}
use moistello_contracts.Soroban.Contract.{Address, Env}
use moistello_contracts.Soroban.Outcome.{commit_keeps}
use moistello_contracts.Soroban.Keeps.{
  Keeps, keeping, Keeps-bind, Keeps-map_err, Keeps-require, Keeps-load,
}
use moistello_contracts.Soroban.Turns.{Turns, turning, Keeps-through, Turns-gate, Turns-last}
use moistello_contracts.Common.Pause.{Keeps-when_not_paused}
use moistello_contracts.Common.Reentrancy.{Keeps-guarded}
use moistello_contracts.Common.TokenTransfer.{TokenLedger, Keeps-client_transfer}
use moistello_contracts.Circle.Types.{
  Circle, Store, already_contributed, circle_lock, circle_pause, circle_ledger,
}
use moistello_contracts.Circle.Contribute.{
  has_contributed, when_not_paused, check_listed_member, check_status, check_not_contributed,
  record_round_fee, reward_on_time, apply_penalty, charge_late_penalty, admit_contribution,
  take_contribution, contribute_unlocked, contribute,
}
use moistello_contracts.Circle.Join.{join, join_unlocked, admit_member, enlist}
use moistello_contracts.Circle.Accounts.{IsAccounted, record_contribution-IsAccounted}
use moistello_contracts.Circle.Calls.{Call, apply, step, run}

-- The accounts agree, and do not know of a contribution by the member for the round.
abbrev AreReady : {W : Type 0} → Address → ℕ → Store W → Type 0
AreReady member round s = IsAccounted s × (has_contributed s member round ≡ false)

module _ {W : Type 0} where
  check_not_contributed-AreReady :
      (member : Address) (round : ℕ)
      → Turns {S = Store W} IsAccounted (AreReady member round) (check_not_contributed member round)
  unfolding check_not_contributed
  check_not_contributed-AreReady member round =
      Turns-gate (λ s. has_contributed s member round) already_contributed

  check_status-IsAccounted :
      (member : Address) (status : Option ℕ)
      → Keeps {S = Store W} IsAccounted (check_status member status)
  unfolding check_status check_listed_member
  check_status-IsAccounted member none = search keeping depth 14
  check_status-IsAccounted member (some status) = search keeping depth 14

  admit_contribution-AreReady :
      (circle : Circle) (member : Address) (amount : ℤ) (round : ℕ)
      → Turns {S = Store W} IsAccounted
          (AreReady member round)
          (admit_contribution circle member amount round)
  unfolding admit_contribution
  admit_contribution-AreReady circle member amount round =
      search (keeping, Turns-last, check_status-IsAccounted, check_not_contributed-AreReady) depth
        24

module _ {W : Type 0} (t : TokenLedger W) where
  record_round_fee-AreReady :
      (member : Address) (r round : ℕ) (fee penalty : ℤ)
      → Keeps {S = Store W} (AreReady member r) (record_round_fee round fee penalty)
  unfolding record_round_fee
  record_round_fee-AreReady member r round fee penalty = search keeping depth 14

  charge_late_penalty-AreReady :
      (member : Address) (round : ℕ) (circle : Circle) (amount : ℤ)
      → Keeps {S = Store W}
          (AreReady member round)
          (charge_late_penalty t circle member amount round)
  unfolding charge_late_penalty apply_penalty
  charge_late_penalty-AreReady member round circle amount =
      search (keeping, record_round_fee-AreReady, Keeps-client_transfer) depth 24

  take_contribution-IsAccounted :
      (env : Env) (circle : Circle) (member : Address) (amount : ℤ) (round : ℕ)
      → Turns
          (AreReady member round)
          IsAccounted
          (take_contribution t env circle member amount round)
  unfolding take_contribution reward_on_time
  take_contribution-IsAccounted env circle member amount round =
      search
        (
          turning, charge_late_penalty-AreReady, Keeps-client_transfer,
          record_contribution-IsAccounted,
        )
        depth 24

  contribute-IsAccounted :
      (env : Env) (member : Address) (amount : ℤ) (round : ℕ)
      → Keeps IsAccounted (contribute t env member amount round)
  unfolding contribute contribute_unlocked when_not_paused
  contribute-IsAccounted env member amount round =
      Keeps-bind (Keeps-map_err _ Keeps-when_not_paused) (λ _.
        Keeps-guarded _ (λ b s h. h)
          (Keeps-bind (Keeps-require (env.authorized member)) (λ _.
            Keeps-bind (Keeps-load _ _) (λ circle.
              Keeps-through _ (admit_contribution-AreReady circle member amount round)
                (λ _. take_contribution-IsAccounted env circle member amount round)))))

  join-IsAccounted : (env : Env) (member : Address) → Keeps IsAccounted (join t env member)
  unfolding join join_unlocked when_not_paused admit_member enlist
  join-IsAccounted env member =
      search (keeping, Keeps-when_not_paused, Keeps-client_transfer) depth 26

  apply-IsAccounted : (env : Env) (c : Call) → Keeps IsAccounted (apply t env c)
  unfolding apply
  apply-IsAccounted env (Call.join member) = join-IsAccounted env member
  apply-IsAccounted env (Call.contribute member amount round) =
      contribute-IsAccounted env member amount round

  pub step-IsAccounted :
      (env : Env) (c : Call) (s : Store W) → IsAccounted s → IsAccounted (step t env c s)
  unfolding step
  step-IsAccounted env c s h =
      commit_keeps IsAccounted s (apply t env c s) h ((apply-IsAccounted env c).holds s h)

  -- After any history of joins and contributions by anyone, failed ones included: the totals and the
  -- contributors that the circle keeps for each round are those of its log of contributions, and no
  -- member is in the log more than once for a round. The history starts from a storage with the same
  -- property, such as one without contributions.
  pub run-IsAccounted :
      (cs : List (Env × Call)) (s : Store W) → IsAccounted s → IsAccounted (run t cs s)
  unfolding run
  run-IsAccounted [] s h = h
  run-IsAccounted ((env, c) ∷ cs) s h =
      run-IsAccounted cs (step t env c s) (step-IsAccounted env c s h)
