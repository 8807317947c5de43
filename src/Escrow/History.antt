-- ===== src/Escrow/History.antt =====
-- The swaps of packages/escrow-swap/src/contract.rs over any history of calls.
use moistello_contracts.Prelude.{
  ℕ, ℤ, ◌≡◌, refl, sym, ◌∙◌, true, false, not, ◌||◌, ◌==◌, arith, some, List, [], ◌∷◌, push_back,
}
use moistello_contracts.Soroban.Contract.{M, Address, Env, is_some, ◌>>◌, only_if}
use moistello_contracts.Soroban.Outcome.{commit_keeps, after_fail_if}
use moistello_contracts.Soroban.Keeps.{
  Keeps, keeping, Keeps-bind, Keeps-map_err, Keeps-require, Keeps-pure, Keeps-modify, Keeps-fail_if,
  Keeps-only_if,
}
use moistello_contracts.Soroban.Turns.{
  Turns, Keeps-reading, Turns-ok_or, Turns-through, Turns-last, Turns-unless,
}
use moistello_contracts.Common.Pause.{Keeps-when_not_paused}
use moistello_contracts.Common.Pause
use moistello_contracts.Common.Reentrancy.{Keeps-guarded}
use moistello_contracts.Common.TokenTransfer.{TokenLedger, Keeps-safe_transfer}
use moistello_contracts.Escrow.Types.{
  SwapRequest, swap_accepted, swap_completed, swap_cancelled, EscrowError, EscrowEvent,
  status_active, status_completed, status_cancelled, Store, publish, escrow_pause, escrow_lock,
  escrow_ledger,
}
use moistello_contracts.Escrow.Swaps.{
  when_not_paused, swaps_of, find_swap, set_status, check_accept, move_tokens, write_status,
  store_swap, check_admin,
}
use moistello_contracts.Escrow.Swaps
use moistello_contracts.Escrow.Calls.{Call, apply, step, run}
use moistello_contracts.Escrow.Lifecycle.{
  Moves, accepts, completes, cancels, Evolved, Evolved-push_back, Evolved-set_status,
  check_accept-Accepted,
}

-- The contract has been initialized, and the old swaps are still there.
abbrev pub HasEvolved : {W : Type 0} → List SwapRequest → Store W → Type 0
HasEvolved old s = (is_some s.admin ≡ true) × Evolved old (swaps_of s)

module _ {W : Type 0} (t : TokenLedger W) (old : List SwapRequest) where
  abbrev Evolving : Store W → Type 0
  Evolving = HasEvolved old

  move-Keeps :
      (P : Store W → Type 0) (token from to : Address) (amount : ℤ)
      → ((w : W) (s : Store W) → P s → P (record s { tokens = w }))
      → Keeps P (move_tokens t token from to amount)
  move-Keeps P token from to amount stable =
      Keeps-map_err _ (Keeps-safe_transfer t token from to amount stable)

  written :
      (swaps : List SwapRequest) (id status : ℕ) (swap : SwapRequest)
      → find_swap id swaps ≡ some swap
      → Moves swap (record swap { status = status })
      → Turns
          (λ s. Evolving s × (s.swap_requests ≡ some swaps))
          Evolving
          (write_status id status swaps)
  written swaps id status swap found move = record {
    turned = λ s h.
        let here : Evolved old swaps = rw h.1 at (h.0.1) in
        (h.0.0, Evolved-set_status old swaps id status swap found move here);
  }

  -- The rest of an operation once the swap is found and checked.
  pub moved_on :
      (swaps : List SwapRequest) (id status : ℕ) (swap : SwapRequest) (e : EscrowEvent)
      (payments : M (Store W) EscrowError (Unit {0}))
      → find_swap id swaps ≡ some swap
      → Moves swap (record swap { status = status })
      → ((P : Store W → Type 0)
          → ((w : W) (s : Store W) → P s → P (record s { tokens = w }))
          → Keeps P payments)
      → Turns
          (λ s. Evolving s × (s.swap_requests ≡ some swaps))
          Evolving
          (payments >> (publish e >> write_status id status swaps))
  moved_on swaps id status swap e payments found move kept =
      Turns-last _ (kept _ (λ w s h. h))
        λ _. Turns-last _ (Keeps-modify (λ s h. h)) λ _. written swaps id status swap found move

  accept-HasEvolved :
      (sha256 : ℕ → ℕ) (env : Env) (id : ℕ) (responder : Address) (secret : ℕ)
      → Keeps Evolving (Swaps.accept_swap t sha256 env id responder secret)
  unfolding Swaps.accept_swap when_not_paused
  accept-HasEvolved sha256 env id responder secret =
      Keeps-bind (Keeps-map_err _ Keeps-when_not_paused) λ _.
        Keeps-guarded _ (λ b s h. h)
          (Keeps-bind (Keeps-require (env.authorized responder)) λ _.
            Keeps-reading (λ s. s.swap_requests) _
              λ swaps. Turns-ok_or (find_swap id swaps) _ λ swap found.
                Turns-through _ (check_accept-Accepted sha256 env swap responder secret _) λ _.
                  record {
                    turned = λ s h.
                        (moved_on swaps id status_active swap (swap_accepted id responder)
                            (move_tokens t swap.token_b responder env.current_contract
                              swap.responder_amount)
                            found (accepts h.1.pending refl)
                            (λ P stable.
                              move-Keeps P swap.token_b responder env.current_contract
                                swap.responder_amount stable)).turned
                          s h.0;
                  })

  complete-HasEvolved :
      (env : Env) (id : ℕ) (caller : Address) → Keeps Evolving (Swaps.complete_swap t env id caller)
  unfolding Swaps.complete_swap when_not_paused
  complete-HasEvolved env id caller = Keeps-bind (Keeps-map_err _ Keeps-when_not_paused) λ _.
      Keeps-guarded _ (λ b s h. h)
        (Keeps-bind (Keeps-require (env.authorized caller)) λ _.
          Keeps-reading (λ s. s.swap_requests) _
            λ swaps. Turns-ok_or (find_swap id swaps) _ λ swap found.
              Turns-unless (not (swap.status == status_active)) _ _ λ active.
                Turns-last _ (Keeps-fail_if _ _) λ _.
                  Turns-last _
                    (move-Keeps _ swap.token_a env.current_contract swap.responder
                      swap.initiator_amount (λ w s h. h))
                    λ _.
                      moved_on swaps id status_completed swap
                        (swap_completed id swap.initiator swap.responder)
                        (move_tokens t swap.token_b env.current_contract swap.initiator
                          swap.responder_amount)
                        found (completes (ground arith) refl)
                        (λ P stable.
                          move-Keeps P swap.token_b env.current_contract swap.initiator
                            swap.responder_amount stable))

  cancel-HasEvolved :
      (env : Env) (id : ℕ) (caller : Address) → Keeps Evolving (Swaps.cancel_swap t env id caller)
  unfolding Swaps.cancel_swap when_not_paused
  cancel-HasEvolved env id caller = Keeps-bind (Keeps-map_err _ Keeps-when_not_paused) λ _.
      Keeps-guarded _ (λ b s h. h)
        (Keeps-bind (Keeps-require (env.authorized caller)) λ _.
          Keeps-reading (λ s. s.swap_requests) _
            λ swaps. Turns-ok_or (find_swap id swaps) _ λ swap found.
              Turns-unless (swap.status == status_completed || swap.status == status_cancelled) _ _
                λ live. Turns-last _ (Keeps-fail_if _ _) λ _.
                  Turns-last _
                    (move-Keeps _ swap.token_a env.current_contract swap.initiator
                      swap.initiator_amount (λ w s h. h))
                    λ _.
                      moved_on swaps id status_cancelled swap (swap_cancelled id)
                        (only_if (swap.status == status_active) (
                          move_tokens t swap.token_b env.current_contract swap.responder
                            swap.responder_amount))
                        found (cancels (λ e. ground (arith, e)) (λ e. ground (arith, e)) refl)
                        (λ P stable. Keeps-only_if (swap.status == status_active) (λ _.
                          move-Keeps P swap.token_b env.current_contract swap.responder
                            swap.responder_amount stable)))

  pushed :
      (swap : SwapRequest) (s : Store W)
      → Evolving s
      → Evolving (record s { swap_requests = some (push_back (swaps_of s) swap) })
  pushed swap s h = (h.0, Evolved-push_back old (swaps_of s) swap h.1)

  store_swap-HasEvolved : (swap : SwapRequest) → Keeps Evolving (store_swap swap)
  unfolding store_swap
  store_swap-HasEvolved swap = search (keeping, pushed) depth 8

  create-HasEvolved :
      (env : Env) (initiator responder token_a token_b : Address) (amount_a amount_b : ℤ)
      (hash_lock time_lock : ℕ)
      → Keeps Evolving (
          Swaps.create_swap t env initiator responder token_a token_b amount_a amount_b hash_lock
            time_lock)
  unfolding Swaps.create_swap when_not_paused
  create-HasEvolved env initiator responder token_a token_b amount_a amount_b hash_lock time_lock =
      search
        (keeping, Keeps-when_not_paused, Keeps-guarded, move-Keeps Evolving, store_swap-HasEvolved)
        depth 22

  init-HasEvolved : (env : Env) (admin : Address) → Keeps Evolving (Swaps.init env admin)
  unfolding Swaps.init
  init-HasEvolved env admin = Keeps-bind (Keeps-require (env.authorized admin)) λ _. record {
    holds = λ s h.
        after_fail_if _ (is_some s.admin) _ _ s
          λ fresh. let never : true ≡ false = sym h.0 ∙ fresh in cc;
  }

  apply-HasEvolved : (sha256 : ℕ → ℕ) (env : Env) (c : Call) → Keeps Evolving (apply t sha256 env c)
  unfolding apply Swaps.pause Swaps.unpause check_admin Pause.pause Pause.unpause
  apply-HasEvolved sha256 env (Call.init admin) = init-HasEvolved env admin
  apply-HasEvolved sha256 env (Call.create_swap a b c d e f g h) =
      Keeps-bind (create-HasEvolved env a b c d e f g h) (λ _. Keeps-pure tt)
  apply-HasEvolved sha256 env (Call.accept_swap id responder secret) =
      accept-HasEvolved sha256 env id responder secret
  apply-HasEvolved sha256 env (Call.complete_swap id caller) = complete-HasEvolved env id caller
  apply-HasEvolved sha256 env (Call.cancel_swap id caller) = cancel-HasEvolved env id caller
  apply-HasEvolved sha256 env c = search keeping depth 14

module _ {W : Type 0} (t : TokenLedger W) (sha256 : ℕ → ℕ) where
  -- However an initialized contract is called, failed calls included: every swap that it stores stays
  -- at its place with its terms, and its status only goes from pending to active, from active to
  -- completed, and to cancelled from a status that is neither completed nor cancelled.
  pub run-HasEvolved :
      (cs : List (Env × Call)) (old : List SwapRequest) (s : Store W)
      → HasEvolved old s
      → HasEvolved old (run t sha256 cs s)
  unfolding run step
  run-HasEvolved [] old s h = h
  run-HasEvolved ((env, c) ∷ cs) old s h = run-HasEvolved cs old (step t sha256 env c s) (
      commit_keeps (HasEvolved old) s (apply t sha256 env c s) h
        ((apply-HasEvolved t old sha256 env c).holds s h))
