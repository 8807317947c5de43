-- ===== src/Escrow/Holdings.antt =====
-- What packages/escrow-swap/src/contract.rs owes to the parties of its swaps, and its transfers.
use moistello_contracts.Prelude.{
  ℕ, ℤ, pos, ◌+ℤ◌, ◌-ℤ◌, ◌≤ℤ◌, ◌≡◌, ◌≢◌, refl, sym, subst, true, false, ◌||◌, ◌==◌, ==_iff, leb_ℤ,
  if◌then◌else◌, Option, none, some, List, [], ◌∷◌, push_back, int_laws, arith, Bool-cases, inl,
  inr,
}
use moistello_contracts.Soroban.Contract.{Address, is_some}
use moistello_contracts.Soroban.Outcome.{Post}
use moistello_contracts.Soroban.Keeps.{Keeps, Keeps-map_err}
use moistello_contracts.Soroban.Turns.{Turns, Turns-map_err}
use moistello_contracts.Common.TokenTransfer.{
  TokenLedger, IsStandard, TokenTransferError, Turns-safe_transfer, Keeps-safe_transfer, settle,
}
use moistello_contracts.Escrow.Types.{
  SwapRequest, status_active, status_completed, status_cancelled, Store, escrow_ledger,
}
use moistello_contracts.Escrow.Swaps.{swaps_of, find_swap, set_status, move_tokens}

-- An amount in a token, as a function of the token.
abbrev pub charge : Address → ℤ → Address → ℤ
charge token amount other = if other == token then amount else pos 0

-- The contract owes the initiator's amount until the swap is completed or cancelled, and the
-- responder's while it is active.
abbrev pub owed_a : Address → SwapRequest → ℤ
owed_a token s =
    if s.status == status_completed || s.status == status_cancelled
    then pos 0
    else charge s.token_a s.initiator_amount token

abbrev pub owed_b : Address → SwapRequest → ℤ
owed_b token s =
    if s.status == status_active then charge s.token_b s.responder_amount token else pos 0

abbrev pub owed : Address → SwapRequest → ℤ
owed token s = owed_a token s +ℤ owed_b token s

abbrev pub total_owed : Address → List SwapRequest → ℤ
total_owed token [] = pos 0
total_owed token (s ∷ swaps) = owed token s +ℤ total_owed token swaps

pub total_owed-push_back :
    (token : Address) (swaps : List SwapRequest) (s : SwapRequest)
    → total_owed token (push_back swaps s) ≡ total_owed token swaps +ℤ owed token s
total_owed-push_back token [] s = grind int_laws
total_owed-push_back token (u ∷ swaps) s = grind (int_laws, total_owed-push_back token swaps s)

swap_sides : (a b c : ℤ) → (c +ℤ b) +ℤ a ≡ (a +ℤ b) +ℤ c
swap_sides a b c = grind int_laws

shift : (a b c d e : ℤ) → b +ℤ c ≡ d +ℤ e → (a +ℤ b) +ℤ c ≡ (a +ℤ d) +ℤ e
shift a b c d e h = grind (int_laws, h)

pub total_owed-set_status :
    (token : Address) (id status : ℕ) (swaps : List SwapRequest) (s : SwapRequest)
    → find_swap id swaps ≡ some s
    → total_owed token (set_status id status swaps) +ℤ owed token s
      ≡ total_owed token swaps +ℤ owed token (record s { status = status })
total_owed-set_status token id status [] s found = cc
total_owed-set_status token id status (u ∷ swaps) s found = elim (Bool-cases (u.id == id)) [
  | inl same ↦
      let first : some u ≡ some s = rw same at found in
      let e : u ≡ s = cc in
      rw same (
        subst
          (λ x.
            (owed token (record u { status = status }) +ℤ total_owed token swaps) +ℤ owed token x
            ≡ (owed token u +ℤ total_owed token swaps) +ℤ owed token (record x { status = status }))
          e
          (swap_sides (owed token u) (total_owed token swaps)
            (owed token (record u { status = status }))))
  | inr other ↦ rw other (
      shift (owed token u) _ (owed token s) (total_owed token swaps) _
        (total_owed-set_status token id status swaps s (rw other at found)))
]

module _ {W : Type 0} (t : TokenLedger W) (self : Address) where
  -- The contract has been initialized, and lacks no more than an amount of each token of what it
  -- owes.
  abbrev pub IsHeldBy : (Address → ℤ) → Store W → Type 0
  IsHeldBy lack s =
      (is_some s.admin ≡ true)
      × ((token : Address)
          → total_owed token (swaps_of s) ≤ℤ t.balance token self s.tokens +ℤ lack token)

  -- The contract holds all that it owes.
  abbrev pub IsHeld : Store W → Type 0
  IsHeld s =
      (is_some s.admin ≡ true)
      × ((token : Address) → total_owed token (swaps_of s) ≤ℤ t.balance token self s.tokens)

  pub move-Keeps :
      (P : Store W → Type 0) (token from to : Address) (amount : ℤ)
      → ((w : W) (s : Store W) → P s → P (record s { tokens = w }))
      → Keeps P (move_tokens t token from to amount)
  move-Keeps P token from to amount stable =
      Keeps-map_err _ (Keeps-safe_transfer t token from to amount stable)

  module _ (standard : IsStandard t) where
    -- What a transfer changes of the contract's holdings, in each token.
    taken-ge :
        (token from other : Address) (amount : ℤ) (w w' : W)
        → from ≢ self
        → t.transfer token from self amount w ≡ some w'
        → t.balance other self w' ≡ t.balance other self w +ℤ charge token amount other
    taken-ge token from other amount w w' distinct moved = elim (Bool-cases (other == token)) [
      | inl same ↦
          let e : other ≡ token = (==_iff other token).0 same in
          rw same (
            subst (λ k. t.balance k self w' ≡ t.balance k self w +ℤ amount) (sym e)
              (standard.transfer_to token from self amount w w' distinct moved))
      | inr different ↦
          let kept =
            standard.transfer_other_tokens token other from self self amount w w'
              (λ e. ground (arith, e)) moved in
          rw different (grind (int_laws, kept))
    ]

    paid-ge :
        (token to other : Address) (amount : ℤ) (w w' : W)
        → leb_ℤ amount (pos 0) ≡ false
        → t.transfer token self to amount w ≡ some w'
        → t.balance other self w ≤ℤ t.balance other self w' +ℤ charge token amount other
    paid-ge token to other amount w w' positive moved = elim (Bool-cases (other == token)) [
      | inl same ↦
          let e : other ≡ token = (==_iff other token).0 same in
          rw same (
            subst (λ k. t.balance k self w ≤ℤ t.balance k self w' +ℤ amount) (sym e)
              (paid_own token to amount w w' positive moved))
      | inr different ↦
          let kept =
            standard.transfer_other_tokens token other self to self amount w w'
              (λ e. ground (arith, e)) moved in
          rw different (grind (int_laws, kept))
    ]
      where
        paid_own :
            (token to : Address) (amount : ℤ) (w w' : W)
            → leb_ℤ amount (pos 0) ≡ false
            → t.transfer token self to amount w ≡ some w'
            → t.balance token self w ≤ℤ t.balance token self w' +ℤ amount
        paid_own token to amount w w' positive moved = elim (Bool-cases (self == to)) [
          | inl own ↦
              let e : self ≡ to = (==_iff self to).0 own in
              let step : t.transfer token self self amount w ≡ some w' =
                subst (λ a. t.transfer token self a amount w ≡ some w') (sym e) moved in
              let kept = standard.transfer_self token self amount w w' step in
              let above : pos 0 ≤ℤ amount = ground arith in grind (int_laws, kept, above)
          | inr other ↦
              let distinct : self ≢ to = λ e. ground (arith, e) in
              let exact = standard.transfer_from token self to amount w w' distinct moved in
              grind (int_laws, exact)
        ]

    pub take-IsHeldBy :
        (token from : Address) (amount : ℤ) (lack : Address → ℤ)
        → from ≢ self
        → Turns
            (IsHeldBy lack)
            (IsHeldBy (λ other. lack other -ℤ charge token amount other))
            (move_tokens t token from self amount)
    take-IsHeldBy token from amount lack distinct = Turns-map_err _ (
        Turns-safe_transfer t token from self amount (λ _. record {
          turned = λ s h. by_outcome s h (t.transfer token from self amount s.tokens) refl;
        }))
      where
        by_outcome :
            (s : Store W)
            → IsHeldBy lack s
            → (o : Option W) → t.transfer token from self amount s.tokens ≡ o
            → Post {E = TokenTransferError}
                (IsHeldBy (λ other. lack other -ℤ charge token amount other))
                (settle o s)
        by_outcome s h none moved = tt
        by_outcome s h (some w) moved = (
          h.0,
          λ other.
              let more = taken-ge token from other amount s.tokens w distinct moved in
              grind (int_laws, h.1 other, more),
        )

    pub pay-IsHeldBy :
        (token to : Address) (amount : ℤ) (lack : Address → ℤ)
        → Turns
            (IsHeldBy lack)
            (IsHeldBy (λ other. lack other +ℤ charge token amount other))
            (move_tokens t token self to amount)
    pay-IsHeldBy token to amount lack = Turns-map_err _ (
        Turns-safe_transfer t token self to amount (λ positive. record {
          turned = λ s h. by_outcome positive s h (t.transfer token self to amount s.tokens) refl;
        }))
      where
        by_outcome :
            leb_ℤ amount (pos 0) ≡ false
            → (s : Store W) → IsHeldBy lack s
            → (o : Option W) → t.transfer token self to amount s.tokens ≡ o
            → Post {E = TokenTransferError}
                (IsHeldBy (λ other. lack other +ℤ charge token amount other))
                (settle o s)
        by_outcome positive s h none moved = tt
        by_outcome positive s h (some w) moved = (
          h.0,
          λ other.
              let less = paid-ge token to other amount s.tokens w positive moved in
              grind (int_laws, h.1 other, less),
        )
