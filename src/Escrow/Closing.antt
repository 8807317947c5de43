-- ===== src/Escrow/Closing.antt =====
-- The tokens of `complete_swap` and `cancel_swap` of packages/escrow-swap/src/contract.rs.
use moistello_contracts.Prelude.{
  ℕ, ℤ, pos, ◌+ℤ◌, ◌≡◌, false, not, ◌||◌, ◌==◌, some, List, arith, Bool-cases, inl, inr,
}
use moistello_contracts.Soroban.Contract.{Address, Env, ◌>>◌, only_if}
use moistello_contracts.Soroban.Keeps.{
  Keeps, Keeps-bind, Keeps-require, Keeps-modify, Keeps-fail_if, Keeps-only_if,
}
use moistello_contracts.Soroban.Turns.{
  Turns, Keeps-reading, Turns-ok_or, Turns-through, Turns-last, Turns-unless,
}
use moistello_contracts.Common.Reentrancy.{Keeps-guarded}
use moistello_contracts.Common.TokenTransfer.{TokenLedger, IsStandard}
use moistello_contracts.Escrow.Types.{
  SwapRequest, swap_cancelled, status_active, status_completed, status_cancelled, Store, publish,
  escrow_pause, escrow_lock, escrow_ledger,
}
use moistello_contracts.Escrow.Swaps.{
  when_not_paused, swaps_of, find_swap, set_status, check_accept, move_tokens, write_status,
  store_swap, check_admin, is_party,
}
use moistello_contracts.Escrow.Swaps
use moistello_contracts.Escrow.Holdings.{charge, IsHeld, IsHeldBy}
use moistello_contracts.Escrow.Debts.{
  Stored, keeps_pause, completed_less, cancelled_less, written, Held-zero, paid,
}

module _ {W : Type 0} (t : TokenLedger W) (standard : IsStandard t) (env : Env) where
  abbrev Held : Store W → Type 0
  Held = IsHeld t env.current_contract

  abbrev HeldBy : (Address → ℤ) → Store W → Type 0
  HeldBy = IsHeldBy t env.current_contract

  pub complete-IsHeld :
      (id : ℕ) (caller : Address) → Keeps Held (Swaps.complete_swap t env id caller)
  unfolding Swaps.complete_swap
  complete-IsHeld id caller = Keeps-bind keeps_pause λ _.
      Keeps-guarded _ (λ b s h. h)
        (Keeps-bind (Keeps-require (env.authorized caller)) λ _.
          Keeps-reading (λ s. s.swap_requests) _
            λ swaps. Turns-ok_or (find_swap id swaps) _ λ swap found.
              Turns-unless (not (swap.status == status_active)) _ _ λ active.
                Turns-last _ (Keeps-fail_if (not (is_party swap caller)) _) λ _. record {
                  turned = λ s h.
                      (Turns-through
                          {R = λ s.
                            HeldBy
                              (λ other. pos 0 +ℤ charge swap.token_a swap.initiator_amount other) s
                            × Stored swaps s}
                          _
                          (paid t env.current_contract standard swaps swap.token_a swap.responder
                            swap.initiator_amount (λ _. pos 0))
                          λ _.
                            Turns-through _
                              (paid t env.current_contract standard swaps swap.token_b
                                swap.initiator swap.responder_amount _)
                              λ _. Turns-last _ (Keeps-modify (λ s h. h)) λ _.
                                written t env.current_contract swaps id status_completed swap _
                                  found (λ token. completed_less swap token (ground arith))).turned
                        s (Held-zero t env.current_contract s h.0, h.1);
                })

  -- The responder's part of a refund, and the new status.
  refunded :
      (swaps : List SwapRequest) (id : ℕ) (swap : SwapRequest)
      → find_swap id swaps ≡ some swap
      → (swap.status == status_completed || swap.status == status_cancelled) ≡ false
      → Turns
          (λ s.
            HeldBy (λ other. pos 0 +ℤ charge swap.token_a swap.initiator_amount other) s
            × Stored swaps s)
          Held
          (only_if
              (swap.status == status_active)
              (move_tokens t swap.token_b env.current_contract swap.responder swap.responder_amount)
            >> (publish (swap_cancelled id) >> write_status id status_cancelled swaps))
  refunded swaps id swap found live = elim (Bool-cases (swap.status == status_active)) [
    | inl active ↦ rw active (
        Turns-through _
          (paid t env.current_contract standard swaps swap.token_b swap.responder
            swap.responder_amount _)
          λ _. Turns-last _ (Keeps-modify (λ s h. h)) λ _.
            written t env.current_contract swaps id status_cancelled swap _ found
              (λ token. completed_less swap token (ground arith)))
    | inr inactive ↦ rw inactive (
        Turns-last (λ _. publish (swap_cancelled id) >> write_status id status_cancelled swaps)
          (Keeps-only_if false
            {m = move_tokens t swap.token_b env.current_contract swap.responder
              swap.responder_amount}
            (λ e. cc))
          λ _. Turns-last _ (Keeps-modify (λ s h. h)) λ _.
            written t env.current_contract swaps id status_cancelled swap _ found
              (λ token. cancelled_less swap token live inactive))
  ]

  pub cancel-IsHeld : (id : ℕ) (caller : Address) → Keeps Held (Swaps.cancel_swap t env id caller)
  unfolding Swaps.cancel_swap
  cancel-IsHeld id caller = Keeps-bind keeps_pause λ _.
      Keeps-guarded _ (λ b s h. h)
        (Keeps-bind (Keeps-require (env.authorized caller)) λ _.
          Keeps-reading (λ s. s.swap_requests) _
            λ swaps. Turns-ok_or (find_swap id swaps) _ λ swap found.
              Turns-unless (swap.status == status_completed || swap.status == status_cancelled) _ _
                λ live. Turns-last _ (Keeps-fail_if (not (is_party swap caller)) _) λ _. record {
                  turned = λ s h.
                      (Turns-through _
                          (paid t env.current_contract standard swaps swap.token_a swap.initiator
                            swap.initiator_amount (λ _. pos 0))
                          (λ _. refunded swaps id swap found live)).turned
                        s (Held-zero t env.current_contract s h.0, h.1);
                })
