-- ===== src/Treasury/Reserves.antt =====
-- The recorded balance of packages/treasury/src/contract.rs and the tokens it stands for.
use moistello_contracts.Prelude.{
  ℤ, pos, ◌+ℤ◌, ◌-ℤ◌, ◌≤ℤ◌, ◌≡◌, ◌≢◌, refl, sym, subst, ◌==◌, ==_iff, ltb_ℤ, Option, none, some,
  int_laws, arith, checked_add, checked_sub, checked_add-eq, checked_sub-eq, Bool-cases, inl, inr,
}
use moistello_contracts.Soroban.Contract.{Address}
use moistello_contracts.Soroban.Outcome.{Post, after_ok_or, last_fail_if}
use moistello_contracts.Soroban.Turns.{Turns}
use moistello_contracts.Common.TokenTransfer.{TokenLedger, IsStandard, client_transfer, settle}
use moistello_contracts.Treasury.Types.{
  TreasuryError, Store, treasury_pause, treasury_lock, treasury_ledger,
}
use moistello_contracts.Treasury.Ledger.{require_balance, credit, debit, balance_of}

module _ {W : Type 0} (t : TokenLedger W) (token self : Address) where
  -- The treasury's token is this one, the recorded balance is not negative, and the treasury holds
  -- it and an amount more.
  abbrev pub IsBackedBy : ℤ → Store W → Type 0
  IsBackedBy extra s =
      (s.token ≡ some token)
      × ((pos 0 ≤ℤ balance_of s) × (balance_of s +ℤ extra ≤ℤ t.balance token self s.tokens))

  abbrev pub IsBacked : Store W → Type 0
  IsBacked s =
      (s.token ≡ some token)
      × ((pos 0 ≤ℤ balance_of s) × (balance_of s ≤ℤ t.balance token self s.tokens))

  pub credit-IsBacked :
      (amount : ℤ) → pos 0 ≤ℤ amount → Turns (IsBackedBy amount) IsBacked (credit amount)
  unfolding credit
  credit-IsBacked amount positive = record {
    turned = λ s h. after_ok_or _ (checked_add (balance_of s) amount) _ _ s λ raised added.
        let exact = (checked_add-eq (balance_of s) amount added).0 in
        (h.0, (rw exact (grind (int_laws, h.1.0, positive)), rw exact h.1.1));
  }

  -- The recorded balance covers the amount.
  abbrev pub IsEnough : ℤ → Store W → Type 0
  IsEnough amount s = amount ≤ℤ balance_of s

  pub require_balance-IsEnough :
      (amount : ℤ) (P : Store W → Type 0)
      → Turns P (λ s. P s × IsEnough amount s) (require_balance amount)
  unfolding require_balance
  require_balance-IsEnough amount P = record {
    turned = λ s h.
        last_fail_if (λ s. P s × IsEnough amount s) (ltb_ℤ (balance_of s) amount) _ s
          (λ enough. (h, ground arith));
  }

  pub debit-IsBackedBy :
      (amount extra : ℤ)
      → Turns
          (λ s. IsBackedBy extra s × IsEnough amount s)
          (IsBackedBy (amount +ℤ extra))
          (debit amount)
  unfolding debit
  debit-IsBackedBy amount extra = record {
    turned = λ s h. after_ok_or _ (checked_sub (balance_of s) amount) _ _ s λ lowered taken.
        let exact = (checked_sub-eq (balance_of s) amount taken).0 in
        (h.0.0, (grind (int_laws, exact, h.1), grind (int_laws, exact, h.0.1.1)));
  }

  pub IsBackedBy-zero : (s : Store W) → IsBackedBy (pos 0) s → IsBacked s
  IsBackedBy-zero s h = (h.0, (h.1.0, grind (int_laws, h.1.1)))

  pub IsBacked-zero : (s : Store W) → IsBacked s → IsBackedBy (pos 0) s
  IsBacked-zero s h = (h.0, (h.1.0, grind (int_laws, h.1.1)))

  module _ (standard : IsStandard t) where
    -- A payment of the treasury lowers what it holds by no more than the amount.
    paid-le :
        (to : Address) (amount : ℤ) (w w' : W)
        → pos 0 ≤ℤ amount
        → t.transfer token self to amount w ≡ some w'
        → t.balance token self w -ℤ amount ≤ℤ t.balance token self w'
    paid-le to amount w w' positive moved = elim (Bool-cases (self == to)) [
      | inl same ↦
          let e : self ≡ to = (==_iff self to).0 same in
          let step : t.transfer token self self amount w ≡ some w' =
            subst (λ a. t.transfer token self a amount w ≡ some w') (sym e) moved in
          let kept = standard.transfer_self token self amount w w' step in
          grind (int_laws, kept, positive)
      | inr other ↦
          let distinct : self ≢ to = λ e. ground (arith, e) in
          let exact = standard.transfer_from token self to amount w w' distinct moved in
          grind (int_laws, exact)
    ]

    pub pay-IsBackedBy :
        (to : Address) (amount extra : ℤ)
        → pos 0 ≤ℤ amount
        → Turns {E = TreasuryError}
            (IsBackedBy extra)
            (IsBackedBy (extra -ℤ amount))
            (client_transfer t token self to amount)
    pay-IsBackedBy to amount extra positive = record {
      turned = λ s h. by_outcome s h (t.transfer token self to amount s.tokens) refl;
    }
      where
        by_outcome :
            (s : Store W)
            → IsBackedBy extra s
            → (o : Option W) → t.transfer token self to amount s.tokens ≡ o
            → Post {E = TreasuryError} (IsBackedBy (extra -ℤ amount)) (settle o s)
        by_outcome s h none moved = tt
        by_outcome s h (some w) moved =
            (h.0, (h.1.0, grind (int_laws, h.1.1, paid-le to amount s.tokens w positive moved)))

    pub take-IsBackedBy :
        (from : Address) (amount : ℤ)
        → from ≢ self
        → Turns {E = TreasuryError} IsBacked
            (IsBackedBy amount)
            (client_transfer t token from self amount)
    take-IsBackedBy from amount other = record {
      turned = λ s h. by_outcome s h (t.transfer token from self amount s.tokens) refl;
    }
      where
        by_outcome :
            (s : Store W)
            → IsBacked s
            → (o : Option W) → t.transfer token from self amount s.tokens ≡ o
            → Post {E = TreasuryError} (IsBackedBy amount) (settle o s)
        by_outcome s h none moved = tt
        by_outcome s h (some w) moved =
            let raised = standard.transfer_to token from self amount s.tokens w other moved in
            (h.0, (h.1.0, grind (int_laws, h.1.1, raised)))
