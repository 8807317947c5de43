-- ===== src/Escrow/Debts.antt =====
-- What the contract of packages/escrow-swap/src/contract.rs owes when the status of a swap changes.
use moistello_contracts.Prelude.{
  ℕ, ℤ, pos, ◌+ℤ◌, ◌-ℤ◌, ◌≤ℤ◌, ◌≡◌, refl, false, ◌||◌, ◌==◌, some, List, int_laws,
}
use moistello_contracts.Soroban.Contract.{Address}
use moistello_contracts.Soroban.Keeps.{Keeps, Keeps-map_err}
use moistello_contracts.Soroban.Turns.{Turns, Turns-both}
use moistello_contracts.Common.Pause.{Keeps-when_not_paused}
use moistello_contracts.Common.TokenTransfer.{TokenLedger, IsStandard}
use moistello_contracts.Escrow.Types.{
  SwapRequest, status_pending, status_active, status_completed, status_cancelled, Store,
  escrow_pause, escrow_lock, escrow_ledger,
}
use moistello_contracts.Escrow.Swaps.{when_not_paused, find_swap, move_tokens, write_status}
use moistello_contracts.Escrow.Holdings.{
  charge, owed, total_owed, total_owed-set_status, IsHeld, IsHeldBy, move-Keeps, pay-IsHeldBy,
}

abbrev pub Stored : {W : Type 0} → List SwapRequest → Store W → Type 0
Stored swaps s = s.swap_requests ≡ some swaps

pub keeps_pause : {W : Type 0} {P : Store W → Type 0} → Keeps P when_not_paused
unfolding when_not_paused
keeps_pause = Keeps-map_err _ Keeps-when_not_paused

pub owed_active :
    (token : Address) (swap : SwapRequest)
    → swap.status ≡ status_active
    → owed token swap
      ≡ charge swap.token_a swap.initiator_amount token
        +ℤ charge swap.token_b swap.responder_amount token
owed_active token swap active = rw active refl

pub owed_pending :
    (token : Address) (swap : SwapRequest)
    → swap.status ≡ status_pending
    → owed token swap ≡ charge swap.token_a swap.initiator_amount token +ℤ pos 0
owed_pending token swap pending = rw pending refl

pub completed_less :
    (swap : SwapRequest) (token : Address)
    → swap.status ≡ status_active
    → owed token (record swap { status = status_completed })
        +ℤ ((pos 0 +ℤ charge swap.token_a swap.initiator_amount token)
            +ℤ charge swap.token_b swap.responder_amount token)
      ≤ℤ owed token swap
completed_less swap token active = rw (owed_active token swap active) (
    sum_less (charge swap.token_a swap.initiator_amount token)
      (charge swap.token_b swap.responder_amount token))
  where
    sum_less : (a b : ℤ) → (pos 0 +ℤ pos 0) +ℤ ((pos 0 +ℤ a) +ℤ b) ≤ℤ a +ℤ b
    sum_less a b = grind int_laws

pub accepted_less :
    (swap : SwapRequest) (token : Address)
    → swap.status ≡ status_pending
    → owed token (record swap { status = status_active })
        +ℤ (pos 0 -ℤ charge swap.token_b swap.responder_amount token)
      ≤ℤ owed token swap
accepted_less swap token pending = rw (owed_pending token swap pending) (
    sum_less (charge swap.token_a swap.initiator_amount token)
      (charge swap.token_b swap.responder_amount token))
  where
    sum_less : (a b : ℤ) → (a +ℤ b) +ℤ (pos 0 -ℤ b) ≤ℤ a +ℤ pos 0
    sum_less a b = grind int_laws

pub cancelled_less :
    (swap : SwapRequest) (token : Address)
    → (swap.status == status_completed || swap.status == status_cancelled) ≡ false
    → (swap.status == status_active) ≡ false
    → owed token (record swap { status = status_cancelled })
        +ℤ (pos 0 +ℤ charge swap.token_a swap.initiator_amount token)
      ≤ℤ owed token swap
cancelled_less swap token live inactive =
    rw live (rw inactive (sum_less (charge swap.token_a swap.initiator_amount token)))
  where
    sum_less : (a : ℤ) → (pos 0 +ℤ pos 0) +ℤ (pos 0 +ℤ a) ≤ℤ a +ℤ pos 0
    sum_less a = grind int_laws

module _ {W : Type 0} (t : TokenLedger W) (self : Address) where
  abbrev Held : Store W → Type 0
  Held = IsHeld t self

  abbrev HeldBy : (Address → ℤ) → Store W → Type 0
  HeldBy = IsHeldBy t self

  -- The swap takes the new status, by which the contract owes what it lacked less.
  pub written :
      (swaps : List SwapRequest) (id status : ℕ) (swap : SwapRequest) (lack : Address → ℤ)
      → find_swap id swaps ≡ some swap
      → ((token : Address)
          → owed token (record swap { status = status }) +ℤ lack token ≤ℤ owed token swap)
      → Turns (λ s. HeldBy lack s × Stored swaps s) Held (write_status id status swaps)
  written swaps id status swap lack found less = record {
    turned = λ s h. (
      h.0.0,
      λ token.
          let held : total_owed token swaps ≤ℤ t.balance token self s.tokens +ℤ lack token =
            rw h.1 at (h.0.1 token) in
          settle_sum _ _ _ _ _ _ (total_owed-set_status token id status swaps swap found)
            (less token) held,
    );
  }
    where
      settle_sum :
          (after before old new lack balance : ℤ)
          → after +ℤ old ≡ before +ℤ new
          → new +ℤ lack ≤ℤ old
          → before ≤ℤ balance +ℤ lack
          → after ≤ℤ balance
      settle_sum after before old new lack balance e less held = grind (int_laws, e, less, held)

  pub Held-zero : (s : Store W) → Held s → HeldBy (λ _. pos 0) s
  Held-zero s h = (h.0, λ token. grind (int_laws, h.1 token))

  module _ (standard : IsStandard t) where
    -- A transfer, while the swaps that have been read stay stored.
    pub paid :
        (swaps : List SwapRequest) (token to : Address) (amount : ℤ) (lack : Address → ℤ)
        → Turns
            (λ s. HeldBy lack s × Stored swaps s)
            (λ s. HeldBy (λ other. lack other +ℤ charge token amount other) s × Stored swaps s)
            (move_tokens t token self to amount)
    paid swaps token to amount lack =
        Turns-both (pay-IsHeldBy t self standard token to amount lack)
          (move-Keeps t self (Stored swaps) token self to amount (λ w s h. h))
