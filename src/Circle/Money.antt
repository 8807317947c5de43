-- ===== src/Circle/Money.antt =====
-- The tokens that `contribute` of packages/circle/src/contract.rs moves.
use moistello_contracts.Prelude.{ℕ, ℤ, ◌≡◌, ◌≢◌, refl, true, Option, none, some, ◌+ℤ◌, ◌-ℤ◌}
use moistello_contracts.Soroban.Result.{ok}
use moistello_contracts.Soroban.Contract.{Address, Env, ◌>>◌}
use moistello_contracts.Soroban.Outcome.{Post}
use moistello_contracts.Soroban.Keeps.{Keeps, keeping}
use moistello_contracts.Common.TokenTransfer.{TokenLedger, IsStandard, settle}
use moistello_contracts.Circle.Types.{Circle, contribution_recorded, Store, publish, circle_ledger}
use moistello_contracts.Circle.Contribute.{
  payment_timing, record_contribution, reward_on_time, take_contribution,
}

module _ {W : Type 0} (t : TokenLedger W) where
  -- In the second ledger the member has paid the amount to the circle, in the circle's token.
  abbrev pub HasPaid : Circle → Address → ℤ → W → W → Type 0
  HasPaid circle member amount w w' =
      (t.balance circle.token circle.id w' ≡ t.balance circle.token circle.id w +ℤ amount)
      × (t.balance circle.token member w' ≡ t.balance circle.token member w -ℤ amount)

  recording-HasPaid :
      (env : Env) (circle : Circle) (member : Address) (amount : ℤ) (round : ℕ) (w : W)
      → Keeps {S = Store W}
          (λ s. HasPaid circle member amount w s.tokens)
          (record_contribution member amount round env.timestamp true
            >> (publish (contribution_recorded member round amount true)
                >> reward_on_time env circle member amount round true))
  unfolding record_contribution reward_on_time
  recording-HasPaid env circle member amount round w = search keeping depth 16

  -- A contribution on time that succeeds moves exactly its amount from the member to the circle, if
  -- the token contract keeps to its interface and the circle is not its own member.
  pub take_contribution-HasPaid :
      (env : Env) (circle : Circle) (member : Address) (amount : ℤ) (round : ℕ) (s : Store W)
      → IsStandard t
      → member ≢ circle.id
      → payment_timing env circle ≡ ok true
      → Post
          (λ s'. HasPaid circle member amount s.tokens s'.tokens)
          (take_contribution t env circle member amount round s)
  unfolding take_contribution
  take_contribution-HasPaid env circle member amount round s standard other on_time =
      rw on_time (by_outcome (t.transfer circle.token member circle.id amount s.tokens) refl)
    where
      by_outcome :
          (o : Option W)
          → t.transfer circle.token member circle.id amount s.tokens ≡ o
          → Post
              (λ s'. HasPaid circle member amount s.tokens s'.tokens)
              ((settle o
                  >> (record_contribution member amount round env.timestamp true
                      >> (publish (contribution_recorded member round amount true)
                          >> reward_on_time env circle member amount round true)))
                s)
      by_outcome none moved = tt
      by_outcome (some w) moved =
          (recording-HasPaid env circle member amount round s.tokens).holds
            (record s { tokens = w })
            (
              standard.transfer_to circle.token member circle.id amount s.tokens w other moved,
              standard.transfer_from circle.token member circle.id amount s.tokens w other moved,
            )
