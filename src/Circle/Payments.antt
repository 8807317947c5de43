-- ===== src/Circle/Payments.antt =====
-- The money of a payout in `trigger_payout_internal` of packages/circle/src/contract.rs.
use moistello_contracts.Prelude.{
  ℕ, ℤ, pos, ◌+ℤ◌, ◌-ℤ◌, ◌≡◌, ◌≢◌, refl, ◌∙◌, sym, ltb, ltb_ℤ, Option, none, some, List, [], ◌∷◌,
  int_laws, Bool-cases, inl, inr, checked_add, checked_add-eq, checked_sub, checked_sub-eq, ◌==◌,
}
use moistello_contracts.Soroban.Result.{Result, ok, err, trap, result_ok_or}
use moistello_contracts.Soroban.Contract.{Address, M, ◌>>=◌, lift, or_err}
use moistello_contracts.Soroban.Outcome.{Gives, Gives-call, Gives-map}
use moistello_contracts.Soroban.Map.{get, address_key}
use moistello_contracts.Soroban.Yields.{Each}
use moistello_contracts.Common.Math.{MathError, underflow, overflow, safe_add, safe_sub}
use moistello_contracts.Common.TokenTransfer.{IsStandard, client_transfer, settle}
use moistello_contracts.Circle.Types.{
  Circle, Member, CircleError, Store, circle_ledger, payout_random,
}
use moistello_contracts.Circle.Externals.{Externals}
use moistello_contracts.Circle.Distribution.{
  Weights, Paid, credit_received, share_of, pay_account, pay_positive, pay_share, pay_shares,
  distribute,
}

module _ {S E B : Type 0} (Q : B → S → Type 0) where
  Gives-checked :
      (o : Option ℤ) (f : MathError) (e : E) (k : ℤ → M S E B) (s : S)
      → ((c : ℤ) → o ≡ some c → Gives Q (k c s))
      → Gives Q ((or_err (result_ok_or o f) e >>= k) s)
  Gives-checked none f e k s h = tt
  Gives-checked (some c) f e k s h = h c refl

  pub Gives-safe_add :
      (a b : ℤ) (e : E) (k : ℤ → M S E B) (s : S)
      → ((c : ℤ) → c ≡ a +ℤ b → Gives Q (k c s))
      → Gives Q ((or_err (safe_add a b) e >>= k) s)
  unfolding safe_add
  Gives-safe_add a b e k s h =
      Gives-checked (checked_add a b) overflow e k s (λ c added. h c (checked_add-eq a b added).0)

  pub Gives-safe_sub :
      (a b : ℤ) (e : E) (k : ℤ → M S E B) (s : S)
      → ((c : ℤ) → c ≡ a -ℤ b → Gives Q (k c s))
      → Gives Q ((or_err (safe_sub a b) e >>= k) s)
  unfolding safe_sub
  Gives-safe_sub a b e k s h =
      Gives-checked (checked_sub a b) underflow e k s (λ c taken. h c (checked_sub-eq a b taken).0)

  pub Gives-lift :
      {A : Type 0} (r : Result E A) (k : A → M S E B) (s : S)
      → ((a : A) → Gives Q (k a s))
      → Gives Q ((lift r >>= k) s)
  Gives-lift (ok a) k s h = h a
  Gives-lift (err e) k s h = tt
  Gives-lift trap k s h = tt

module _ {W : Type 0} (x : Externals W) (standard : IsStandard x.tokens) (circle : Circle) where
  -- What the circle holds of its token.
  abbrev pub held : Store W → ℤ
  held s = x.tokens.balance circle.token circle.id s.tokens

  -- What the circle holds and what it has distributed add up to the amount.
  abbrev pub IsBalanced : ℤ → Option Address → Paid → Store W → Type 0
  IsBalanced sum treasury paid s = (held s +ℤ paid.distributed ≡ sum) × (s.treasury ≡ treasury)

  transferred :
      (account : Address) (amount : ℤ) (s : Store W)
      → account ≢ circle.id
      → Gives {E = CircleError}
          (λ _ s'. (held s' ≡ held s -ℤ amount) × (s'.treasury ≡ s.treasury))
          (client_transfer x.tokens circle.token circle.id account amount s)
  transferred account amount s distinct =
      by_outcome (x.tokens.transfer circle.token circle.id account amount s.tokens) refl
    where
      by_outcome :
          (o : Option W)
          → x.tokens.transfer circle.token circle.id account amount s.tokens ≡ o
          → Gives {E = CircleError}
              (λ _ s'. (held s' ≡ held s -ℤ amount) × (s'.treasury ≡ s.treasury))
              (settle o s)
      by_outcome none moved = tt
      by_outcome (some w) moved = (
        standard.transfer_from circle.token circle.id account amount s.tokens w
            (λ e. distinct (sym e)) moved,
        refl,
      )

  -- A payment adds as much to what is distributed as it takes from the circle.
  abbrev pub Pays : Paid → Store W → ℤ → Paid → Store W → Type 0
  Pays paid s amount paid' s' =
      ((held s' ≡ held s -ℤ amount) × (paid'.distributed ≡ paid.distributed +ℤ amount))
      × (s'.treasury ≡ s.treasury)

  pub pay_account-Pays :
      (round now : ℕ) (account : Address) (amount : ℤ) (paid : Paid) (s : Store W)
      → account ≢ circle.id
      → Gives (Pays paid s amount) (pay_account x circle round now account amount paid s)
  unfolding pay_account
  pay_account-Pays round now account amount paid s distinct =
      Gives-call _ (client_transfer x.tokens circle.token circle.id account amount s)
        (λ _ s'. (held s' ≡ held s -ℤ amount) × (s'.treasury ≡ s.treasury)) _
        (transferred account amount s distinct)
        λ _ s1 h. Gives-safe_add _ paid.distributed amount _ _ s1 λ distributed sum.
          Gives-lift _ (credit_received account amount paid.members) _ s1
            λ members. ((h.0, sum), h.1)

  pay_account-IsBalanced :
      (sum : ℤ) (treasury : Option Address) (round now : ℕ) (account : Address) (amount : ℤ)
      (paid : Paid) (s : Store W)
      → account ≢ circle.id
      → IsBalanced sum treasury paid s
      → Gives (IsBalanced sum treasury) (pay_account x circle round now account amount paid s)
  pay_account-IsBalanced sum treasury round now account amount paid s distinct h =
      Gives-map _ (IsBalanced sum treasury) (pay_account x circle round now account amount paid s)
        (λ paid' s' p. (grind (int_laws, p.0.0, p.0.1, h.0), p.1 ∙ h.1))
        (pay_account-Pays round now account amount paid s distinct)

  pay_share-IsBalanced :
      (sum : ℤ) (treasury : Option Address) (round now : ℕ) (net : ℤ) (total : ℕ)
      (account : Address) (weight : Option ℕ) (paid : Paid) (s : Store W)
      → account ≢ circle.id
      → IsBalanced sum treasury paid s
      → Gives
          (IsBalanced sum treasury)
          (pay_share x circle round now net total account weight paid s)
  unfolding pay_share pay_positive
  pay_share-IsBalanced sum treasury round now net total account none paid s distinct h = h
  pay_share-IsBalanced sum treasury round now net total account (some weight) paid s distinct h =
      elim (Bool-cases (ltb 0 total)) [
        | inr empty ↦ rw empty h
        | inl weighed ↦
            rw weighed
              (elim (Bool-cases (ltb_ℤ (pos 0) (share_of net paid.distributed weight total))) [
                | inr nothing ↦ rw nothing h
                | inl positive ↦ rw positive (
                    pay_account-IsBalanced sum treasury round now account
                      (share_of net paid.distributed weight total) paid s distinct h)
              ])
      ]

  -- No member is the circle itself.
  abbrev pub NotCircle : List Member → Type 0
  NotCircle = Each (λ m. m.address ≢ circle.id)

  pay_shares-IsBalanced :
      (sum : ℤ) (treasury : Option Address) (round now : ℕ) (net : ℤ) (w : Weights)
      (members : List Member) (paid : Paid) (s : Store W)
      → NotCircle members
      → IsBalanced sum treasury paid s
      → Gives (IsBalanced sum treasury) (pay_shares x circle round now net w members paid s)
  unfolding pay_shares
  pay_shares-IsBalanced sum treasury round now net w [] paid s others h = h
  pay_shares-IsBalanced sum treasury round now net w (m ∷ members) paid s others h =
      Gives-call _
        (pay_share x circle round now net w.total m.address (get m.address w.by_member) paid s)
        (IsBalanced sum treasury) _
        (pay_share-IsBalanced sum treasury round now net w.total m.address
          (get m.address w.by_member) paid s others.0 h)
        (λ after s1 h1.
          pay_shares-IsBalanced sum treasury round now net w members after s1 others.1 h1)

  pub distribute-IsBalanced :
      (sum : ℤ) (treasury : Option Address) (round now : ℕ) (net : ℤ) (w : Weights) (paid : Paid)
      (s : Store W)
      → NotCircle paid.members
      → IsBalanced sum treasury paid s
      → Gives (IsBalanced sum treasury) (distribute x circle round now net w paid s)
  unfolding distribute
  distribute-IsBalanced sum treasury round now net w paid s others h =
      elim (Bool-cases (circle.payout_type == payout_random)) [
        | inl random ↦
            rw random
              (pay_shares-IsBalanced sum treasury round now net w paid.members paid s others h)
        | inr other ↦ rw other h
      ]
