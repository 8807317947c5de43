-- ===== src/Escrow/Calls.antt =====
-- The entry points of packages/escrow-swap/src/lib.rs that change the state, and the ledger's view
-- of them.
use moistello_contracts.Prelude.{ℕ, ℤ, List, [], ◌∷◌}
use moistello_contracts.Soroban.Contract.{Address, Env, ◌>>=◌, pure}
use moistello_contracts.Soroban.Outcome.{commit}
use moistello_contracts.Common.TokenTransfer.{TokenLedger}
use moistello_contracts.Escrow.Types.{Store, Op}
use moistello_contracts.Escrow.Swaps

pub data Call : Type 0 where
  init : Address → Call
  create_swap : Address → Address → Address → Address → ℤ → ℤ → ℕ → ℕ → Call
  accept_swap : ℕ → Address → ℕ → Call
  complete_swap cancel_swap : ℕ → Address → Call
  pause unpause : Address → Call

module _ {W : Type 0} (t : TokenLedger W) (sha256 : ℕ → ℕ) where
  unfoldable pub apply : Env → Call → Op W
  apply env (init admin) = Swaps.init env admin
  apply env
        (create_swap initiator responder token_a token_b amount_a amount_b hash_lock time_lock) =
      Swaps.create_swap t env initiator responder token_a token_b amount_a amount_b hash_lock
        time_lock
      >>= λ _. pure tt
  apply env (accept_swap id responder secret) = Swaps.accept_swap t sha256 env id responder secret
  apply env (complete_swap id caller) = Swaps.complete_swap t env id caller
  apply env (cancel_swap id caller) = Swaps.cancel_swap t env id caller
  apply env (pause admin) = Swaps.pause env admin
  apply env (unpause admin) = Swaps.unpause env admin

  unfoldable pub step : Env → Call → Store W → Store W
  step env c s = commit s (apply env c s)

  unfoldable pub run : List (Env × Call) → Store W → Store W
  run [] s = s
  run ((env, c) ∷ cs) s = run cs (step env c s)
