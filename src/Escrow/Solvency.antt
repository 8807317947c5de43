-- ===== src/Escrow/Solvency.antt =====
-- The tokens of packages/escrow-swap/src/contract.rs over any history of calls.
use moistello_contracts.Prelude.{ℕ, ◌≡◌, sym, ◌∙◌, subst, true, false, List, [], ◌∷◌}
use moistello_contracts.Soroban.Contract.{Address, Env, is_some}
use moistello_contracts.Soroban.Outcome.{after_fail_if, commit_keeps}
use moistello_contracts.Soroban.Keeps.{Keeps, keeping, Keeps-bind, Keeps-require, Keeps-pure}
use moistello_contracts.Soroban.Yields.{Each}
use moistello_contracts.Common.Pause.{Keeps-when_not_paused}
use moistello_contracts.Common.Pause
use moistello_contracts.Common.TokenTransfer.{TokenLedger, IsStandard}
use moistello_contracts.Escrow.Types.{Store, escrow_pause, escrow_lock, escrow_ledger}
use moistello_contracts.Escrow.Swaps.{
  when_not_paused, swaps_of, find_swap, set_status, check_accept, move_tokens, write_status,
  store_swap, check_admin, is_party,
}
use moistello_contracts.Escrow.Swaps
use moistello_contracts.Escrow.Calls.{Call, apply, step, run}
use moistello_contracts.Escrow.Holdings.{IsHeld}
use moistello_contracts.Escrow.Opening.{accept-IsHeld, create-IsHeld}
use moistello_contracts.Escrow.Closing.{complete-IsHeld, cancel-IsHeld}

module _ {W : Type 0} (t : TokenLedger W) (standard : IsStandard t) (env : Env)
    (outside : env.authorized env.current_contract ≡ false) where
  abbrev Held : Store W → Type 0
  Held = IsHeld t env.current_contract

  init-IsHeld : (admin : Address) → Keeps Held (Swaps.init env admin)
  unfolding Swaps.init
  init-IsHeld admin = Keeps-bind (Keeps-require (env.authorized admin)) λ _. record {
    holds = λ s h.
        after_fail_if _ (is_some s.admin) _ _ s
          λ fresh. let never : true ≡ false = sym h.0 ∙ fresh in cc;
  }

  pub apply-IsHeld : (sha256 : ℕ → ℕ) (c : Call) → Keeps Held (apply t sha256 env c)
  unfolding apply Swaps.pause Swaps.unpause check_admin Pause.pause Pause.unpause
  apply-IsHeld sha256 (Call.init admin) = init-IsHeld admin
  apply-IsHeld sha256 (Call.create_swap a b c d e f g h) =
      Keeps-bind (create-IsHeld t standard env outside a b c d e f g h) (λ _. Keeps-pure tt)
  apply-IsHeld sha256 (Call.accept_swap id responder secret) =
      accept-IsHeld t standard env outside sha256 id responder secret
  apply-IsHeld sha256 (Call.complete_swap id caller) = complete-IsHeld t standard env id caller
  apply-IsHeld sha256 (Call.cancel_swap id caller) = cancel-IsHeld t standard env id caller
  apply-IsHeld sha256 c = search keeping depth 14

-- The call is made to the contract at the address, which signs nothing itself.
abbrev pub IsOutside : Address → Env × Call → Type 0
IsOutside self call = (call.0.current_contract ≡ self) × (call.0.authorized self ≡ false)

module _ {W : Type 0} (t : TokenLedger W) (standard : IsStandard t) (sha256 : ℕ → ℕ)
    (self : Address) where
  -- However an initialized contract is called, failed calls included, if the token contracts keep to
  -- their interface and the contract's own address signs no call: from a storage in which it holds,
  -- in every token, the parts of the initiators of all swaps that are neither completed nor
  -- cancelled and the parts of the responders of all active swaps, it reaches only such storages.
  pub run-IsHeld :
      (cs : List (Env × Call)) (s : Store W)
      → Each (IsOutside self) cs
      → IsHeld t self s
      → IsHeld t self (run t sha256 cs s)
  unfolding run step
  run-IsHeld [] s outside h = h
  run-IsHeld ((env, c) ∷ cs) s outside h = run-IsHeld cs (step t sha256 env c s) outside.1 (
      commit_keeps (IsHeld t self) s (apply t sha256 env c s) h (
        (subst (λ a. Keeps (IsHeld t a) (apply t sha256 env c)) outside.0.0
            (apply-IsHeld t standard env
              (subst (λ a. env.authorized a ≡ false) (sym outside.0.0) outside.0.1) sha256 c)).holds
          s h))
