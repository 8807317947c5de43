-- ===== src/Circle/Window.antt =====
-- The contribution window of packages/circle/src/contract.rs: what `contribute` accepts and what the
-- sweep of a round waits for.
use moistello_contracts.Prelude.{ℕ, ℤ, ◌≡◌, ◌↔◌, subst, true, some, arith}
use moistello_contracts.Soroban.Result.{err}
use moistello_contracts.Soroban.Contract.{Address, Env, lift}
use moistello_contracts.Soroban.Keeps.{Refuses, Refuses-first, Refuses-rest, Keeps-map_err}
use moistello_contracts.Soroban.Outcome.{Post, Post-trivial, after_ok_or, after_require, after_call}
use moistello_contracts.Common.Pause.{Keeps-when_not_paused}
use moistello_contracts.Common.TokenTransfer.{TokenLedger}
use moistello_contracts.Circle.Types.{
  Circle, payment_deadline_passed, not_active, Store, circle_lock, circle_pause,
}
use moistello_contracts.Common.Reentrancy.{Refuses-guarded}
use moistello_contracts.Circle.Rounds.{
  contribution_window_closed, round_forfeit_time, round_contribution_deadline,
}
use moistello_contracts.Circle.Contribute.{
  payment_timing, when_not_paused, contribute, contribute_unlocked, take_contribution,
  admit_contribution,
}

-- A contribution is too late exactly when the window counts as closed.
pub payment_timing_iff :
    (env : Env) (circle : Circle)
    → (payment_timing env circle ≡ err payment_deadline_passed)
      ↔ (contribution_window_closed env circle ≡ true)
unfolding payment_timing contribution_window_closed round_forfeit_time round_contribution_deadline
payment_timing_iff env circle = ground arith

module _ {W : Type 0} (t : TokenLedger W) where
  closed-Refuses :
      (env : Env) (circle : Circle)
      → contribution_window_closed env circle ≡ true
      → (P : Store W → Type 0) → Refuses P (lift (payment_timing env circle))
  closed-Refuses env circle closed P = record {
    refused = λ s p. rw ((payment_timing_iff env circle).1 closed) tt;
  }

  contribute_unlocked-Refuses :
      (env : Env) (circle : Circle) (member : Address) (amount : ℤ) (round : ℕ)
      → contribution_window_closed env circle ≡ true
      → Refuses (λ s. s.circle ≡ some circle) (contribute_unlocked t env member amount round)
  unfolding contribute_unlocked take_contribution
  contribute_unlocked-Refuses env circle member amount round closed = record {
    refused = λ s p. after_require _ (env.authorized member) _ s λ _.
        after_ok_or _ s.circle _ _ s λ found read.
          let same : circle ≡ found = cc in
          after_call _ (admit_contribution found member amount round s) (λ _. Unit) _
            (Post-trivial _)
            (λ _ s' _.
              (Refuses-first _ (
                  closed-Refuses env found
                    (subst (λ c. contribution_window_closed env c ≡ true) same closed)
                    (λ _. Unit))).refused
                s' tt);
  }

  -- Once the contribution window of the stored circle counts as closed, no contribution succeeds.
  pub contribute_closed :
      (env : Env) (circle : Circle) (member : Address) (amount : ℤ) (round : ℕ) (s : Store W)
      → s.circle ≡ some circle
      → contribution_window_closed env circle ≡ true
      → Post (λ _. ⊥) (contribute t env member amount round s)
  unfolding contribute when_not_paused
  contribute_closed env circle member amount round s read closed =
      (Refuses-rest (Keeps-map_err _ Keeps-when_not_paused) (λ _.
          Refuses-guarded not_active (λ b x h. h)
            (contribute_unlocked-Refuses env circle member amount round closed))).refused
        s read
