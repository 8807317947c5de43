-- ===== src/Treasury/Calls.antt =====
-- The entry points of packages/treasury/src/lib.rs that change the state, and the ledger's view of
-- them, after the initialization.
use moistello_contracts.Prelude.{ℤ, List, [], ◌∷◌}
use moistello_contracts.Soroban.Contract.{Address, Env}
use moistello_contracts.Soroban.Outcome.{commit}
use moistello_contracts.Common.TokenTransfer.{TokenLedger}
use moistello_contracts.Treasury.Types.{Store, Op}
use moistello_contracts.Treasury.Ledger

pub data Call : Type 0 where
  deposit : Address → ℤ → Address → Call
  withdraw : Address → Address → ℤ → Call
  rescue_tokens : Address → Address → Address → ℤ → Call
  pause unpause : Address → Call

module _ {W : Type 0} (t : TokenLedger W) where
  unfoldable pub apply : Env → Call → Op W
  apply env (deposit from amount circle_id) = Ledger.deposit t env from amount circle_id
  apply env (withdraw admin to amount) = Ledger.withdraw t env admin to amount
  apply env (rescue_tokens admin to token amount) = Ledger.rescue_tokens t env admin to token amount
  apply env (pause a) = Ledger.pause env a
  apply env (unpause a) = Ledger.unpause env a

  unfoldable pub step : Env → Call → Store W → Store W
  step env c s = commit s (apply env c s)

  unfoldable pub run : List (Env × Call) → Store W → Store W
  run [] s = s
  run ((env, c) ∷ cs) s = run cs (step env c s)
