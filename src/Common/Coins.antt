-- ===== src/Common/Coins.antt =====
-- A token ledger that keeps to the interface of TokenTransfer: balances by token and account.
use moistello_contracts.Prelude.{
  ℕ, ℤ, pos, ◌≡◌, ◌≢◌, refl, sym, true, Bool, false, ◌||◌, ◌+ℤ◌, ◌-ℤ◌, ltb_ℤ, some, none,
  if◌then◌else◌, int_laws, arith,
}
use moistello_contracts.Soroban.Contract.{Address}
use moistello_contracts.Soroban.Map.{Map, get_or, set, get_or-set, pair_key, pair_beq, pair_beq_iff}
use moistello_contracts.Common.TokenTransfer.{TokenLedger, IsStandard}

abbrev pub Coins : Type 0
Coins = Map (Address × Address) ℤ

abbrev pub held : Address → Address → Coins → ℤ
held token account w = get_or (pos 0) (token, account) w

abbrev pub moved : Address → Address → Address → ℤ → Coins → Coins
moved token from to amount w =
    let debited = set (token, from) (held token from w -ℤ amount) w in
    set (token, to) (held token to debited +ℤ amount) debited

abbrev pub coins : TokenLedger Coins
coins = record {
  balance = held;
  transfer = λ token from to amount w.
      if ltb_ℤ amount (pos 0) || ltb_ℤ (held token from w) amount
      then none
      else some (moved token from to amount w);
}

transfer_lem :
    (token from to : Address) (amount : ℤ) (w w' : Coins)
    → coins.transfer token from to amount w ≡ some w'
    → w' ≡ moved token from to amount w
transfer_lem token from to amount w w' h =
    by_test (ltb_ℤ amount (pos 0) || ltb_ℤ (held token from w) amount) h
  where
    by_test :
        (b : Bool)
        → (if b then none else some (moved token from to amount w)) ≡ some w'
        → w' ≡ moved token from to amount w
    by_test true e = cc
    by_test false e = cc

held-moved :
    (token from to : Address) (amount : ℤ) (w : Coins) (other account : Address)
    → held other account (moved token from to amount w) ≡ (
        if pair_beq (token, to) (other, account)
        then (if pair_beq (token, from) (token, to)
            then held token from w -ℤ amount
            else held token to w)
          +ℤ amount
        else if pair_beq (token, from) (other, account)
        then held token from w -ℤ amount
        else held other account w)
held-moved token from to amount w other account =
    rw
      (get_or-set (pos 0) (token, to) (other, account)
        (held token to (set (token, from) (held token from w -ℤ amount) w) +ℤ amount)
        (set (token, from) (held token from w -ℤ amount) w))
      (rw (get_or-set (pos 0) (token, from) (token, to) (held token from w -ℤ amount) w) (
        rw (get_or-set (pos 0) (token, from) (other, account) (held token from w -ℤ amount) w)
          refl))

pair_same : (a b : ℕ) → pair_beq (a, b) (a, b) ≡ true
pair_same a b = (pair_beq_iff (a, b) (a, b)).1 refl

pair_other : (a b c d : ℕ) → b ≢ d → pair_beq (a, b) (c, d) ≡ false
pair_other a b c d h = ground arith

pair_other_token : (a b c d : ℕ) → c ≢ a → pair_beq (a, b) (c, d) ≡ false
pair_other_token a b c d h = ground arith

pub coins-IsStandard : IsStandard coins
coins-IsStandard = record {
  transfer_from = λ token from to amount w w' distinct h.
      rw (transfer_lem token from to amount w w' h) (
        rw (held-moved token from to amount w token from) (
          rw (pair_other token to token from (λ e. distinct (sym e)))
            (rw (pair_same token from) refl)));
  transfer_to = λ token from to amount w w' distinct h.
      rw (transfer_lem token from to amount w w' h) (
        rw (held-moved token from to amount w token to)
          (rw (pair_same token to) (rw (pair_other token from token to distinct) refl)));
  transfer_self = λ token from amount w w' h. rw (transfer_lem token from from amount w w' h) (
      rw (held-moved token from from amount w token from)
        (rw (pair_same token from) (omega int_laws)));
  transfer_others = λ token from to account amount w w' not_from not_to h.
      rw (transfer_lem token from to amount w w' h) (
        rw (held-moved token from to amount w token account) (
          rw (pair_other token to token account (λ e. not_to (sym e)))
            (rw (pair_other token from token account (λ e. not_from (sym e))) refl)));
  transfer_other_tokens = λ token other from to account amount w w' distinct h.
      rw (transfer_lem token from to amount w w' h) (
        rw (held-moved token from to amount w other account) (
          rw (pair_other_token token to other account distinct)
            (rw (pair_other_token token from other account distinct) refl)));
}
