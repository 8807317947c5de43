-- ===== src/Escrow/Acceptance.antt =====
-- What `accept_swap` of packages/escrow-swap/src/contract.rs demands.
use moistello_contracts.Prelude.{
  ℕ, ◌≡◌, refl, ap, subst, ◌∙◌, sym, Bool-cases, inl, inr, ◌==◌, some, List, [], ◌∷◌,
}
use moistello_contracts.Soroban.Contract.{Address, Env}
use moistello_contracts.Soroban.Outcome.{Post, Post-map}
use moistello_contracts.Soroban.Keeps.{Keeps, Keeps-map_err, Keeps-require, Keeps-modify}
use moistello_contracts.Soroban.Turns.{Turns, Turns-last, Turns-ok_or, Turns-reading, Turns-through}
use moistello_contracts.Common.Pause.{Keeps-when_not_paused}
use moistello_contracts.Common.Reentrancy.{Turns-guarded}
use moistello_contracts.Common.TokenTransfer.{TokenLedger}
use moistello_contracts.Escrow.Types.{SwapRequest, status_active, Store, escrow_lock, escrow_pause}
use moistello_contracts.Escrow.Swaps.{
  when_not_paused, find_swap, set_status, accept_swap, swaps_of, write_status,
}
use moistello_contracts.Escrow.Lifecycle.{Accepted, check_accept-Accepted}
use moistello_contracts.Escrow.Holdings.{move-Keeps}

find_swap-set_status :
    (id status : ℕ) (swaps : List SwapRequest) (swap : SwapRequest)
    → find_swap id swaps ≡ some swap
    → find_swap id (set_status id status swaps) ≡ some (record swap { status = status })
find_swap-set_status id status [] swap found = cc
find_swap-set_status id status (u ∷ swaps) swap found = elim (Bool-cases (u.id == id)) [
  | inl same ↦
      let first : some u ≡ some swap = rw same at found in
      let e : u ≡ swap = cc in
      rw same (
        rw same (
          subst (λ x. some (record u { status = status }) ≡ some (record x { status = status })) e
            refl))
  | inr other ↦ rw other (rw other (find_swap-set_status id status swaps swap (rw other at found)))
]

module _ {W : Type 0} (t : TokenLedger W) (sha256 : ℕ → ℕ) where
  -- The swap was pending and the responder has opened it in time; it is active now.
  abbrev pub IsOpened : Env → ℕ → Address → ℕ → List SwapRequest → Store W → Type 0
  IsOpened env id responder secret swaps s' =
      (swap : SwapRequest) × ((find_swap id swaps ≡ some swap)
        × (Accepted sha256 env swap responder secret
            × (s'.swap_requests ≡ some (set_status id status_active swaps))))

  keeps_pause : {P : Store W → Type 0} → Keeps P when_not_paused
  unfolding when_not_paused
  keeps_pause = Keeps-map_err _ Keeps-when_not_paused

  written :
      (env : Env) (id : ℕ) (responder : Address) (secret : ℕ) (swaps read : List SwapRequest)
      (swap : SwapRequest)
      → find_swap id read ≡ some swap
      → Turns {S = Store W}
          (λ s.
            ((s.swap_requests ≡ some swaps) × (s.swap_requests ≡ some read))
            × Accepted sha256 env swap responder secret)
          (IsOpened env id responder secret swaps)
          (write_status id status_active read)
  written env id responder secret swaps read swap found = record {
    turned = λ s h.
        let same : some read ≡ some swaps = sym h.0.1 ∙ h.0.0 in
        let e : read ≡ swaps = cc in
        (
          swap,
          (
            ap (find_swap id) (sym e) ∙ found,
            (h.1, ap (λ l. some (set_status id status_active l)) e),
          ),
        );
  }

  accepted :
      (env : Env) (id : ℕ) (responder : Address) (secret : ℕ) (swaps : List SwapRequest)
      → Turns
          (λ s. s.swap_requests ≡ some swaps)
          (IsOpened env id responder secret swaps)
          (accept_swap t sha256 env id responder secret)
  unfolding accept_swap
  accepted env id responder secret swaps = Turns-last _ keeps_pause λ _.
      Turns-guarded _ (λ b s h. h) (λ b s h. h)
        (Turns-last _ (Keeps-require (env.authorized responder)) λ _.
          Turns-reading (λ s. s.swap_requests) _
            λ read. Turns-ok_or (find_swap id read) _ λ swap found.
              Turns-through _ (check_accept-Accepted sha256 env swap responder secret _) λ _.
                Turns-last _
                  (move-Keeps t env.current_contract _ swap.token_b responder env.current_contract
                    swap.responder_amount (λ w s h. h))
                  λ _.
                    Turns-last _ (Keeps-modify (λ s h. h))
                      λ _. written env id responder secret swaps read swap found)

  -- An acceptance that succeeds was made in time by the named responder of a pending swap, with a
  -- secret whose hash is the swap's hash lock, and the first stored swap with the id is then that
  -- swap with the status active.
  pub accept_swap-IsOpened :
      (env : Env) (id : ℕ) (responder : Address) (secret : ℕ) (swaps : List SwapRequest)
      (s : Store W)
      → s.swap_requests ≡ some swaps
      → Post
          (λ s'.
            (swap : SwapRequest) × (Accepted sha256 env swap responder secret
              × ((find_swap id swaps ≡ some swap)
                  × (find_swap id (swaps_of s') ≡ some (record swap { status = status_active })))))
          (accept_swap t sha256 env id responder secret s)
  accept_swap-IsOpened env id responder secret swaps s stored =
      Post-map _ _ (accept_swap t sha256 env id responder secret s)
        (λ s' h. (
          h.0,
          (h.1.1.0, (h.1.0, rw h.1.1.1 (find_swap-set_status id status_active swaps h.0 h.1.0))),
        ))
        ((accepted env id responder secret swaps).turned s stored)
