-- ===== src/Circle/Calls.antt =====
-- The life of a circle before its payouts: the entry points of packages/circle/src/lib.rs for joining
-- and contributing, and the ledger's view of them.
use moistello_contracts.Prelude.{ℕ, ℤ, List, [], ◌∷◌}
use moistello_contracts.Soroban.Contract.{Address, Env}
use moistello_contracts.Soroban.Outcome.{commit}
use moistello_contracts.Common.TokenTransfer.{TokenLedger}
use moistello_contracts.Circle.Types.{Store, Op}
use moistello_contracts.Circle.Join
use moistello_contracts.Circle.Contribute

pub data Call : Type 0 where
  join : Address → Call
  contribute : Address → ℤ → ℕ → Call

module _ {W : Type 0} (t : TokenLedger W) where
  unfoldable pub apply : Env → Call → Op W
  apply env (join member) = Join.join t env member
  apply env (contribute member amount round) = Contribute.contribute t env member amount round

  unfoldable pub step : Env → Call → Store W → Store W
  step env c s = commit s (apply env c s)

  unfoldable pub run : List (Env × Call) → Store W → Store W
  run [] s = s
  run ((env, c) ∷ cs) s = run cs (step env c s)
