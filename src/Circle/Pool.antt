-- ===== src/Circle/Pool.antt =====
-- A whole pool in `trigger_payout_internal` of packages/circle/src/contract.rs: the shares, the fee,
-- and the rest.
use moistello_contracts.Prelude.{
  ℕ, ℤ, pos, ◌+ℤ◌, ◌-ℤ◌, ◌≤ℤ◌, ◌≡◌, ◌≢◌, refl, ap, true, false, ltb_ℤ, Option, none, some, int_laws,
  arith, Bool-cases, inl, inr, if◌then◌else◌,
}
use moistello_contracts.Soroban.Result.{Result, ok, err, trap}
use moistello_contracts.Soroban.Contract.{Address, only_if, if_some}
use moistello_contracts.Soroban.Outcome.{Post, Gives, Gives-call, Gives-map}
use moistello_contracts.Soroban.Keeps.{Keeps, keeping}
use moistello_contracts.Common.TokenTransfer.{IsStandard, settle}
use moistello_contracts.Circle.Types.{Circle, CircleError, Store, circle_ledger}
use moistello_contracts.Circle.Contribute.{record_round_fee}
use moistello_contracts.Circle.Externals.{Externals, deposit_protocol_fee}
use moistello_contracts.Circle.Distribution.{
  Weights, Paid, distribute, pay_account, pay_fee, pay_dust, pay_pool,
}
use moistello_contracts.Circle.Payments.{
  held, IsBalanced, NotCircle, pay_account-Pays, distribute-IsBalanced, Gives-safe_sub,
}

-- What a treasury takes of a pool.
abbrev pub fee_charged : ℤ → Option Address → ℤ
fee_charged fee none = pos 0
fee_charged fee (some treasury) = if ltb_ℤ (pos 0) fee then fee else pos 0

no_charge :
    (fee : ℤ) (treasury : Option Address)
    → ltb_ℤ (pos 0) fee ≡ false
    → fee_charged fee treasury ≡ pos 0
no_charge fee none nothing = refl
no_charge fee (some treasury) nothing = rw nothing refl

Gives-Post :
    {S E A : Type 0} (P : S → Type 0) (r : Result E (A × S)) → Post P r → Gives (λ _ s. P s) r
Gives-Post P (ok (a, s)) h = h
Gives-Post P (err e) h = tt
Gives-Post P trap h = tt

module _ {W : Type 0} (x : Externals W) (standard : IsStandard x.tokens) (circle : Circle)
    (charges : (treasury : Address) (amount : ℤ) (w w' : W)
      → x.deposit_fee treasury circle.id amount w ≡ some w'
      → x.tokens.balance circle.token circle.id w'
        ≡ x.tokens.balance circle.token circle.id w -ℤ amount) where
  abbrev holdings : Store W → ℤ
  holdings s = held x standard circle s

  -- The fee has been taken by the treasury at an address.
  abbrev HasCharged : ℤ → Store W → Type 0
  HasCharged left s = holdings s ≡ left

  recorded :
      (round : ℕ) (fee left : ℤ) → Keeps (HasCharged left) (record_round_fee round fee (pos 0))
  unfolding record_round_fee
  recorded round fee left = search keeping depth 14

  deposited :
      (treasury : Option Address) (fee : ℤ) (s : Store W)
      → ltb_ℤ (pos 0) fee ≡ true
      → Gives
          (λ _ s'. holdings s' ≡ holdings s -ℤ fee_charged fee treasury)
          (if_some treasury (λ to. deposit_protocol_fee x to circle.id fee) s)
  unfolding deposit_protocol_fee
  deposited none fee s positive = grind int_laws
  deposited (some to) fee s positive =
      rw positive (by_outcome (x.deposit_fee to circle.id fee s.tokens) refl)
    where
      by_outcome :
          (o : Option W)
          → x.deposit_fee to circle.id fee s.tokens ≡ o
          → Gives {E = CircleError} (λ _ s'. holdings s' ≡ holdings s -ℤ fee) (settle o s)
      by_outcome none moved = tt
      by_outcome (some w) moved = charges to fee s.tokens w moved

  charged :
      (round : ℕ) (fee : ℤ) (s : Store W)
      → Gives
          (λ _ s'. holdings s' ≡ holdings s -ℤ fee_charged fee s.treasury)
          (only_if (ltb_ℤ (pos 0) fee) (pay_fee x circle round fee) s)
  unfolding pay_fee
  charged round fee s = elim (Bool-cases (ltb_ℤ (pos 0) fee)) [
    | inl positive ↦ rw positive (
        Gives-call _ (if_some s.treasury (λ to. deposit_protocol_fee x to circle.id fee) s)
          (λ _ s'. holdings s' ≡ holdings s -ℤ fee_charged fee s.treasury) _
          (deposited s.treasury fee s positive)
          λ _ s1 h.
            Gives-Post (HasCharged (holdings s -ℤ fee_charged fee s.treasury)) _
              ((recorded round fee (holdings s -ℤ fee_charged fee s.treasury)).holds s1 h))
    | inr nothing ↦
        let free = no_charge fee s.treasury nothing in rw nothing (grind (int_laws, free))
  ]

  -- The recipient gets what has not been distributed, so that all of the pool is.
  pay_dust-Pays :
      (round now : ℕ) (recipient : Address) (net : ℤ) (paid : Paid) (s : Store W)
      → recipient ≢ circle.id
      → Gives
          (λ paid' s'.
            (holdings s' +ℤ paid'.distributed ≡ holdings s +ℤ paid.distributed)
            × (net ≤ℤ paid'.distributed))
          (pay_dust x circle round now recipient net paid s)
  unfolding pay_dust
  pay_dust-Pays round now recipient net paid s distinct =
      Gives-safe_sub _ net paid.distributed _ _ s λ dust rest.
        Gives-map _ _ (pay_account x circle round now recipient dust paid s)
          (λ paid' s' h. (grind (int_laws, h.0.0, h.0.1), grind (int_laws, h.0.1, rest)))
          (pay_account-Pays x standard circle round now recipient dust paid s distinct)

  -- Paying the pool of a round, if the token contract keeps to its interface, the treasury takes
  -- exactly its fee, and neither a member nor the recipient is the circle itself: all of the net pool
  -- is distributed, and the circle's holdings fall by exactly what is distributed and the fee.
  pub pay_pool-pays :
      (round now : ℕ) (recipient : Address) (net fee : ℤ) (w : Weights) (paid : Paid) (s : Store W)
      → NotCircle x standard circle paid.members
      → recipient ≢ circle.id
      → Gives
          (λ paid' s'.
            ((holdings s' +ℤ paid'.distributed) +ℤ fee_charged fee s.treasury
              ≡ holdings s +ℤ paid.distributed)
            × (net ≤ℤ paid'.distributed))
          (pay_pool x circle round now recipient net fee w paid s)
  unfolding pay_pool
  pay_pool-pays round now recipient net fee w paid s others distinct =
      Gives-call _ (distribute x circle round now net w paid s)
        (IsBalanced x standard circle (holdings s +ℤ paid.distributed) s.treasury) _
        (distribute-IsBalanced x standard circle (holdings s +ℤ paid.distributed) s.treasury round
          now net w paid s others (refl, refl))
        λ shared s1 h.
          Gives-call _ (only_if (ltb_ℤ (pos 0) fee) (pay_fee x circle round fee) s1)
            (λ _ s'. holdings s' ≡ holdings s1 -ℤ fee_charged fee s1.treasury) _
            (charged round fee s1)
            λ _ s2 lowered.
              let charge : fee_charged fee s1.treasury ≡ fee_charged fee s.treasury =
                ap (fee_charged fee) h.1 in
              elim (Bool-cases (ltb_ℤ shared.distributed net)) [
                | inl short ↦ rw short (
                    Gives-map _ _ (pay_dust x circle round now recipient net shared s2)
                      (λ paid' s' p. (add_up _ _ _ _ _ _ _ _ p.0 lowered charge h.0, p.1))
                      (pay_dust-Pays round now recipient net shared s2 distinct))
                | inr enough ↦
                    rw enough (add_up _ _ _ _ _ _ _ _ refl lowered charge h.0, ground arith)
              ]
    where
      add_up :
          (h' d' h2 d h1 f f' sum : ℤ)
          → h' +ℤ d' ≡ h2 +ℤ d
          → h2 ≡ h1 -ℤ f
          → f ≡ f'
          → h1 +ℤ d ≡ sum
          → (h' +ℤ d') +ℤ f' ≡ sum
      add_up h' d' h2 d h1 f f' sum a b c e = grind (int_laws, a, b, c, e)
