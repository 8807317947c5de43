-- ===== src/Escrow/Opening.antt =====
-- The tokens of `create_swap` and `accept_swap` of packages/escrow-swap/src/contract.rs.
use moistello_contracts.Prelude.{
  ℕ, ℤ, pos, leb, leb_ℤ, checked_add_u64, ◌+ℤ◌, ◌-ℤ◌, ◌≤ℤ◌, ◌≡◌, ◌≢◌, refl, subst, true, false,
  ◌||◌, ◌==◌, int_laws,
}
use moistello_contracts.Soroban.Contract.{Address, Env, ◌>>◌, pure, unwrap_or}
use moistello_contracts.Soroban.Outcome.{after_ok_or}
use moistello_contracts.Soroban.Keeps.{
  Keeps, keeping, Keeps-bind, Keeps-gets, Keeps-modify, Keeps-fail_if, Keeps-given,
}
use moistello_contracts.Soroban.Turns.{
  Turns, Keeps-reading, Keeps-through, Turns-ok_or, Turns-through, Turns-last, Turns-first,
  Turns-both, Turns-weaken,
}
use moistello_contracts.Common.Reentrancy.{Keeps-guarded}
use moistello_contracts.Common.TokenTransfer.{TokenLedger, IsStandard}
use moistello_contracts.Escrow.Types.{
  SwapRequest, swap_created, EscrowEvent, status_pending, status_active, Store, publish,
  escrow_pause, escrow_lock, escrow_ledger,
}
use moistello_contracts.Escrow.Swaps.{
  when_not_paused, swaps_of, find_swap, set_status, check_accept, move_tokens, write_status,
  store_swap, check_admin, is_party,
}
use moistello_contracts.Escrow.Swaps
use moistello_contracts.Escrow.Lifecycle.{check_accept-Accepted}
use moistello_contracts.Escrow.Holdings.{
  charge, total_owed-push_back, IsHeld, IsHeldBy, move-Keeps, take-IsHeldBy,
}
use moistello_contracts.Escrow.Debts.{
  Stored, keeps_pause, owed_pending, accepted_less, written, Held-zero,
}

module _ {W : Type 0} (t : TokenLedger W) (standard : IsStandard t) (env : Env)
    (outside : env.authorized env.current_contract ≡ false) where
  abbrev Held : Store W → Type 0
  Held = IsHeld t env.current_contract

  abbrev HeldBy : (Address → ℤ) → Store W → Type 0
  HeldBy = IsHeldBy t env.current_contract

  stranger : (user : Address) → env.authorized user ≡ true → user ≢ env.current_contract
  stranger user signed same =
      let own : env.authorized env.current_contract ≡ true =
        subst (λ a. env.authorized a ≡ true) same signed in
      cc

  pub accept-IsHeld :
      (sha256 : ℕ → ℕ) (id : ℕ) (responder : Address) (secret : ℕ)
      → Keeps Held (Swaps.accept_swap t sha256 env id responder secret)
  unfolding Swaps.accept_swap
  accept-IsHeld sha256 id responder secret = Keeps-bind keeps_pause λ _.
      Keeps-guarded _ (λ b s h. h)
        (Keeps-given (env.authorized responder) _ λ signed.
          Keeps-reading (λ s. s.swap_requests) _
            λ swaps. Turns-ok_or (find_swap id swaps) _ λ swap found.
              Turns-through _ (check_accept-Accepted sha256 env swap responder secret _) λ _.
                record {
                  turned = λ s h.
                      (Turns-through
                          {R = λ s.
                            HeldBy
                              (λ other. pos 0 -ℤ charge swap.token_b swap.responder_amount other) s
                            × Stored swaps s}
                          _
                          (Turns-both
                            (take-IsHeldBy t env.current_contract standard swap.token_b responder
                              swap.responder_amount (λ _. pos 0) (stranger responder signed))
                            (move-Keeps t env.current_contract (Stored swaps) swap.token_b responder
                              env.current_contract swap.responder_amount (λ w s h. h)))
                          λ _. Turns-last _ (Keeps-modify (λ s h. h)) λ _.
                            written t env.current_contract swaps id status_active swap _ found
                              (λ token. accepted_less swap token h.1.pending)).turned
                        s (Held-zero t env.current_contract s h.0.0, h.0.1);
                })

  store_swap-IsHeldBy :
      (swap : SwapRequest)
      → swap.status ≡ status_pending
      → Turns Held (HeldBy (charge swap.token_a swap.initiator_amount)) (store_swap swap)
  unfolding store_swap
  store_swap-IsHeldBy swap pending = record {
    turned = λ s h. after_ok_or _ (checked_add_u64 swap.id 1) _ _ _ λ next _. (
      h.0,
      λ token.
          let pushed = total_owed-push_back token (swaps_of s) swap in
          let new = owed_pending token swap pending in add_up _ _ _ _ _ pushed new (h.1 token),
    );
  }
    where
      add_up :
          (after before new amount balance : ℤ)
          → after ≡ before +ℤ new
          → new ≡ amount +ℤ pos 0
          → before ≤ℤ balance
          → after ≤ℤ balance +ℤ amount
      add_up after before new amount balance e f h = grind (int_laws, e, f, h)

  deposited :
      (token initiator : Address) (amount : ℤ)
      → initiator ≢ env.current_contract
      → Turns
          (HeldBy (charge token amount))
          Held
          (move_tokens t token initiator env.current_contract amount)
  deposited token initiator amount distinct =
      Turns-weaken (λ s h. (h.0, λ other. cancel_out _ _ _ (h.1 other)))
        (take-IsHeldBy t env.current_contract standard token initiator amount (charge token amount)
          distinct)
    where
      cancel_out : (owes balance a : ℤ) → owes ≤ℤ balance +ℤ (a -ℤ a) → owes ≤ℤ balance
      cancel_out owes balance a h = grind (int_laws, h)

  -- The swap is stored, and its first part deposited.
  opened :
      (swap : SwapRequest) (e : EscrowEvent)
      → swap.status ≡ status_pending
      → swap.initiator ≢ env.current_contract
      → Keeps {S = Store W} Held (do
        store_swap swap
        move_tokens t swap.token_a swap.initiator env.current_contract swap.initiator_amount
        publish e
        pure swap.id)
  opened swap e pending distinct = Keeps-through _ (store_swap-IsHeldBy swap pending) λ _.
      Turns-first _ (deposited swap.token_a swap.initiator swap.initiator_amount distinct)
        (λ _. search keeping depth 6)

  pub create-IsHeld :
      (initiator responder token_a token_b : Address) (amount_a amount_b : ℤ)
      (hash_lock time_lock : ℕ)
      → Keeps Held (
          Swaps.create_swap t env initiator responder token_a token_b amount_a amount_b hash_lock
            time_lock)
  unfolding Swaps.create_swap
  create-IsHeld initiator responder token_a token_b amount_a amount_b hash_lock time_lock =
      Keeps-bind keeps_pause λ _.
        Keeps-guarded _ (λ b s h. h)
          (Keeps-given (env.authorized initiator) _ λ signed.
            Keeps-bind (Keeps-fail_if (initiator == responder) _) λ _.
              Keeps-bind (Keeps-fail_if (leb_ℤ amount_a (pos 0) || leb_ℤ amount_b (pos 0)) _) λ _.
                Keeps-bind (Keeps-fail_if (leb time_lock env.timestamp) _) λ _.
                  Keeps-bind (Keeps-gets (λ s. unwrap_or 0 s.next_swap_id)) λ next_id.
                    opened
                      (record {
                        id = next_id;
                        initiator = initiator;
                        responder = responder;
                        token_a = token_a;
                        token_b = token_b;
                        initiator_amount = amount_a;
                        responder_amount = amount_b;
                        hash_lock = hash_lock;
                        time_lock = time_lock;
                        status = status_pending;
                        created_at = env.timestamp;
                      })
                      (swap_created next_id initiator responder token_a token_b amount_a amount_b)
                      refl (stranger initiator signed))
