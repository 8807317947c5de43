-- ===== src/GovernanceToken/Approval.antt =====
-- What `approve` grants and what `allowance` then reports, in
-- packages/governance-token/src/contract.rs.
use moistello_contracts.Prelude.{
  ℕ, ◌≡◌, ◌<◌, ◌≢◌, refl, ℤ, pos, ◌≤ℤ◌, false, arith, not, ◌&&◌, ltb_ℤ, eq_of_parts,
}
use moistello_contracts.Soroban.Contract.{Address, Env}
use moistello_contracts.Soroban.Outcome.{Post, after_ok_or, Post-map}
use moistello_contracts.Soroban.Turns.{Turns, turning}
use moistello_contracts.Soroban.Map.{get_or-set, pair_key}
use moistello_contracts.Common.Pause.{Keeps-when_not_paused}
use moistello_contracts.GovernanceToken.Types.{Store}
use moistello_contracts.GovernanceToken.Views.{
  allowance_data, allowance, is_expired, is_expiration_valid, no_allowance,
}
use moistello_contracts.GovernanceToken.Transfers.{approve, write_allowance}

-- An allowance of this amount and expiry is recorded, replacing any earlier one.
abbrev pub HasApproved : Env → Address → Address → ℤ → ℕ → Store → Type 0
HasApproved env owner spender amount expiration s' =
    (pos 0 ≤ℤ amount)
    × ((ltb_ℤ (pos 0) amount && not (is_expiration_valid env expiration)) ≡ false)
    × (allowance_data s' owner spender ≡ record { amount = amount; expiration_ledger = expiration })

write_allowance-HasApproved :
    (env : Env) (owner spender : Address) (amount : ℤ) (expiration : ℕ)
    → ltb_ℤ amount (pos 0) ≡ false
    → (ltb_ℤ (pos 0) amount && not (is_expiration_valid env expiration)) ≡ false
    → Turns
        (λ s. Unit {0})
        (HasApproved env owner spender amount expiration)
        (write_allowance owner spender amount expiration)
unfolding write_allowance
write_allowance-HasApproved env owner spender amount expiration positive valid = record {
  turned = λ s u. after_ok_or _ s.allowances _ _ s λ m found. (
    ground arith,
    valid,
    rw (get_or-set no_allowance (owner, spender) (owner, spender) _ m)
        (rw ((pair_key.beq_iff (owner, spender) (owner, spender)).1 refl)),
  );
}

approve-HasApproved :
    (env : Env) (owner spender : Address) (amount : ℤ) (expiration : ℕ)
    → Turns
        (λ s. Unit {0})
        (HasApproved env owner spender amount expiration)
        (approve env owner spender amount expiration)
unfolding approve
approve-HasApproved env owner spender amount expiration =
    search
      (
        turning,
        Keeps-when_not_paused,
        write_allowance-HasApproved env owner spender amount expiration,
      )
      depth 24

-- The ledger has passed an expiry that is not 0.
abbrev pub Lapsed : Env → ℕ → Type 0
Lapsed env expiration = (expiration ≢ 0) × (expiration < env.sequence)

-- After an approval that succeeds, the spender's allowance reads as exactly the approved amount,
-- whatever it was before, and as zero for every invocation after the expiry has passed.
pub allowance-approve :
    (env later : Env) (owner spender : Address) (amount : ℤ) (expiration : ℕ) (s : Store)
    → Post
        (λ s'.
          (allowance env s' owner spender ≡ amount)
          × (Lapsed later expiration → allowance later s' owner spender ≡ pos 0))
        (approve env owner spender amount expiration s)
unfolding allowance is_expired is_expiration_valid
allowance-approve env later owner spender amount expiration s =
    Post-map (HasApproved env owner spender amount expiration) _ _
      (λ s' h. (reads s' h, lapses s' h))
      ((approve-HasApproved env owner spender amount expiration).turned s tt)
  where
    reads :
        (s' : Store)
        → HasApproved env owner spender amount expiration s'
        → allowance env s' owner spender ≡ amount
    reads s' h = rw h.2 (ground (arith, h.0, h.1, eq_of_parts (pos 0) amount))

    lapses :
        (s' : Store)
        → HasApproved env owner spender amount expiration s'
        → Lapsed later expiration
        → allowance later s' owner spender ≡ pos 0
    lapses s' h l = rw h.2 (ground arith)
