-- ===== src/Common/TokenTransfer.antt =====
-- packages/common/src/token_transfer.rs. The token contract is not part of this repository's code:
-- it is a parameter, the ledger of all tokens with the two calls of the token client.
use moistello_contracts.Prelude.{
  false, ◌≡◌, ◌≢◌, ℤ, pos, ◌+ℤ◌, ◌-ℤ◌, leb_ℤ, ltb_ℤ, Option, none, some,
}
use moistello_contracts.Soroban.Result.{ok, trap}
use moistello_contracts.Soroban.Contract.{Address, Env, M, ◌>>◌, fail_if}
use moistello_contracts.Soroban.Outcome.{Post}
use moistello_contracts.Soroban.Keeps.{Keeps, Keeps-fail_if}
use moistello_contracts.Soroban.Turns.{Turns, Turns-unless, Turns-last, Turns-Keeps, Keeps-Turns}

-- `token::Client`: `transfer` traps (none) on failure.
pub record TokenLedger (W : Type 0) : Type 0 where
  pub balance : Address → Address → W → ℤ
  pub transfer : Address → Address → Address → ℤ → W → Option W

-- What the token interface documents of a transfer that succeeds between two accounts: it moves the
-- amount, and touches no other account and no other token. It fails on an amount below zero.
pub record IsStandard {W : Type 0} (t : TokenLedger W) : Type 0 where
  pub transfer_from :
      (token from to : Address) (amount : ℤ) (w w' : W)
      → from ≢ to
      → t.transfer token from to amount w ≡ some w'
      → t.balance token from w' ≡ t.balance token from w -ℤ amount
  pub transfer_to :
      (token from to : Address) (amount : ℤ) (w w' : W)
      → from ≢ to
      → t.transfer token from to amount w ≡ some w'
      → t.balance token to w' ≡ t.balance token to w +ℤ amount
  pub transfer_self :
      (token from : Address) (amount : ℤ) (w w' : W)
      → t.transfer token from from amount w ≡ some w'
      → t.balance token from w' ≡ t.balance token from w
  pub transfer_others :
      (token from to account : Address) (amount : ℤ) (w w' : W)
      → account ≢ from
      → account ≢ to
      → t.transfer token from to amount w ≡ some w'
      → t.balance token account w' ≡ t.balance token account w
  pub transfer_other_tokens :
      (token other from to account : Address) (amount : ℤ) (w w' : W)
      → other ≢ token
      → t.transfer token from to amount w ≡ some w'
      → t.balance other account w' ≡ t.balance other account w

pub data TokenTransferError : Type 0 where
  insufficient_balance unauthorized transfer_failed : TokenTransferError

-- A storage that reaches the ledger of tokens.
pub record HasLedger (W S : Type 0) : Type 0 where
  pub ledger : S → W
  pub set_ledger : W → S → S

-- The storage with the ledger that a transfer left, or the trap it ended in.
abbrev pub settle : {W S E : Type 0} ⦃h : HasLedger W S⦄ → Option W → M S E (Unit {0})
settle none s = trap
settle ⦃h⦄ (some w) s = ok (tt, h.set_ledger w s)

module _ {W S : Type 0} (t : TokenLedger W) ⦃h : HasLedger W S⦄ where
  -- `token_client.transfer(from, to, amount)`
  abbrev pub client_transfer : {E : Type 0} → Address → Address → Address → ℤ → M S E (Unit {0})
  client_transfer token from to amount s = settle (t.transfer token from to amount (h.ledger s)) s

  -- A property that does not speak of the tokens is kept by a transfer.
  pub Keeps-client_transfer :
      {E : Type 0} {P : S → Type 0} (token from to : Address) (amount : ℤ)
      → ((w : W) (s : S) → P s → P (h.set_ledger w s))
      → Keeps {E = E} P (client_transfer token from to amount)
  Keeps-client_transfer {E} {P} token from to amount k = record {
    holds = λ s p. by_outcome (t.transfer token from to amount (h.ledger s)) s p;
  }
    where
      by_outcome : (o : Option W) (s : S) → P s → Post {E = E} P (settle o s)
      by_outcome none s p = tt
      by_outcome (some w) s p = k w s p

  unfoldable pub safe_transfer : Address → Address → Address → ℤ → M S TokenTransferError (Unit {0})
  safe_transfer token from to amount = do
    fail_if (leb_ℤ amount (pos 0)) transfer_failed
    λ s. fail_if (ltb_ℤ (t.balance token from (h.ledger s)) amount) insufficient_balance s
    client_transfer token from to amount

  unfoldable pub transfer_from_contract :
      Env → Address → Address → ℤ → M S TokenTransferError (Unit {0})
  transfer_from_contract env token to amount = safe_transfer token env.current_contract to amount

  unfoldable pub transfer_to_contract :
      Env → Address → Address → ℤ → M S TokenTransferError (Unit {0})
  transfer_to_contract env token from amount = safe_transfer token from env.current_contract amount

  -- The checks leave the storage alone; what follows them may use that the amount is positive.
  pub Turns-safe_transfer :
      {P Q : S → Type 0} (token from to : Address) (amount : ℤ)
      → (leb_ℤ amount (pos 0) ≡ false
          → Turns {E = TokenTransferError} P Q (client_transfer token from to amount))
      → Turns P Q (safe_transfer token from to amount)
  unfolding safe_transfer
  Turns-safe_transfer {P} {Q} token from to amount moved =
      Turns-unless (leb_ℤ amount (pos 0)) _ _
        λ positive. Turns-last _ (checked token from amount) (λ _. moved positive)
    where
      checked :
          (token from : Address) (amount : ℤ)
          → Keeps P (λ s.
            fail_if (ltb_ℤ (t.balance token from (h.ledger s)) amount) insufficient_balance s)
      checked token from amount = record {
        holds = λ s p.
            (Keeps-fail_if {P = P} (ltb_ℤ (t.balance token from (h.ledger s)) amount)
                insufficient_balance).holds
              s p;
      }

  pub Keeps-safe_transfer :
      {P : S → Type 0} (token from to : Address) (amount : ℤ)
      → ((w : W) (s : S) → P s → P (h.set_ledger w s))
      → Keeps P (safe_transfer token from to amount)
  Keeps-safe_transfer token from to amount k = Turns-Keeps (
      Turns-safe_transfer token from to amount
        (λ _. Keeps-Turns (Keeps-client_transfer token from to amount k)))
