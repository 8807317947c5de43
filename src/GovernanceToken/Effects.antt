-- ===== src/GovernanceToken/Effects.antt =====
-- What the transfers of packages/governance-token/src/contract.rs do to every account and every
-- allowance.
use moistello_contracts.Prelude.{
  ◌≡◌, refl, ℤ, pos, ◌+ℤ◌, ◌-ℤ◌, ◌≤ℤ◌, ◌<ℤ◌, false, some, arith, ◌==◌, sym, ◌∙◌, ap, ltb_ℤ, leb_ℤ,
  checked_add, checked_sub, checked_add-eq, checked_sub-eq, if◌then◌else◌,
}
use moistello_contracts.Soroban.Contract.{Address, Env, M, ◌>>=◌, unwrap_or}
use moistello_contracts.Soroban.Outcome.{Post, after_fail_if, after_ok_or}
use moistello_contracts.Soroban.Turns.{Turns, turning, Turns-through}
use moistello_contracts.Soroban.Map.{
  Map, get, set, get_or, get_or-set, address_key, pair_key, pair_beq,
}
use moistello_contracts.Common.Pause.{Keeps-when_not_paused}
use moistello_contracts.GovernanceToken.Types.{Store, TokenError, MuxedAddress}
use moistello_contracts.GovernanceToken.Views.{
  balance, total_supply, allowance_data, no_allowance, is_expired, consume_allowance,
}
use moistello_contracts.GovernanceToken.Transfers.{move_balance, transfer, transfer_from}

-- The balance of `a` once `amount` has gone from one account to another, perhaps the same.
abbrev pub moved : (Address → ℤ) → Address → Address → ℤ → Address → ℤ
moved before from to amount a =
    let debited = if from == a then before a -ℤ amount else before a in
    if to == a then debited +ℤ amount else debited

-- The amount is positive and covered, has moved, and the total supply is as it was.
abbrev pub HasMoved : Address → Address → ℤ → Store → Store → Type 0
HasMoved from to amount s s' =
    (pos 0 <ℤ amount)
    × (amount ≤ℤ balance s from)
    × ((a : Address) → balance s' a ≡ moved (balance s) from to amount a)
    × (total_supply s' ≡ total_supply s)

abbrev SameBalances : Store → Store → Type 0
SameBalances s s' = (s'.balances ≡ s.balances) × (s'.total ≡ s.total)

moved_map :
    (m : Map Address ℤ) (from to : Address) (amount left new : ℤ)
    → left ≡ get_or (pos 0) from m -ℤ amount
    → new ≡ get_or (pos 0) to (set from left m) +ℤ amount
    → (a : Address)
    → get_or (pos 0) a (set to new (set from left m))
      ≡ moved (λ b. get_or (pos 0) b m) from to amount a
moved_map m from to amount left new l n a =
    rw (get_or-set (pos 0) to a new (set from left m))
      (rw (get_or-set (pos 0) from a left m) (ground (arith, get_or-set (pos 0) from to left m)))

move_balance-Turns :
    (R : Store → Type 0) (s : Store) (from to : Address) (amount : ℤ)
    → ((x : Store) (m : Map Address ℤ) → R x → R (record x { balances = some m }))
    → leb_ℤ amount (pos 0) ≡ false
    → Turns
        (λ x. SameBalances s x × R x)
        (λ x. HasMoved from to amount s x × R x)
        (move_balance from to amount)
unfolding move_balance
move_balance-Turns R s from to amount keep positive = record {
  turned = λ x p. after_ok_or _ x.balances _ _ x λ m found.
      after_fail_if _ (ltb_ℤ (get_or (pos 0) from m) amount) _ _ x λ covered.
        after_ok_or _ (checked_sub (get_or (pos 0) from m) amount) _ _ x λ left taken.
          after_ok_or _ (checked_add (get_or (pos 0) to (set from left m)) amount) _ _ x
            λ new given.
              let stored : s.balances ≡ some m = sym p.0.0 ∙ found in
              let exact =
                moved_map m from to amount left new (checked_sub-eq _ amount taken).0
                  (checked_add-eq _ amount given).0 in
              (
                (
                  ground arith,
                  rw stored (ground arith),
                  rw stored exact,
                  ap (unwrap_or (pos 0)) p.0.1,
                ),
                keep x _ p.1,
              );
}

SameBalances-refl : (s : Store) → SameBalances s s
SameBalances-refl s = (refl, refl)

-- A transfer that succeeds moves a positive, covered amount from the one balance to the other,
-- changes no other balance, and leaves the total supply and every allowance as they were.
pub transfer-HasMoved :
    (env : Env) (from : Address) (to : MuxedAddress) (amount : ℤ) (s : Store)
    → Post
        (λ s'. HasMoved from to.address amount s s' × (s'.allowances ≡ s.allowances))
        (transfer env from to amount s)
unfolding transfer
transfer-HasMoved env from to amount s = (steps.turned s (SameBalances-refl s, refl))
  where
    steps :
        Turns
          (λ x. SameBalances s x × (x.allowances ≡ s.allowances))
          (λ s'. HasMoved from to.address amount s s' × (s'.allowances ≡ s.allowances))
          (transfer env from to amount)
    steps =
        search
          (turning, Keeps-when_not_paused, move_balance-Turns (λ x. x.allowances ≡ s.allowances) s)
          depth 24

-- The allowance was live and covered the amount; it is lower by the amount, with the same expiry,
-- and no other allowance has changed.
abbrev pub HasSpent : Env → Address → Address → ℤ → Store → Store → Type 0
HasSpent env from spender amount s s' =
    let old = allowance_data s from spender in
    (is_expired env old ≡ false)
    × (amount ≤ℤ old.amount)
    × ((o p : Address)
        → allowance_data s' o p ≡ (
            if pair_beq (from, spender) (o, p)
            then record old { amount = old.amount -ℤ amount }
            else allowance_data s o p))

abbrev SameMoney : Store → Store → Type 0
SameMoney s x = SameBalances s x × (x.allowances ≡ s.allowances)

consume_allowance-Turns :
    (env : Env) (from spender : Address) (amount : ℤ) (s : Store)
    → Turns
        (SameMoney s)
        (λ x. SameBalances s x × HasSpent env from spender amount s x)
        (consume_allowance env from spender amount)
unfolding consume_allowance
consume_allowance-Turns env from spender amount s = record {
  turned = λ x p. after_ok_or _ x.allowances _ _ x λ m found.
      after_ok_or _ (get (from, spender) m) _ _ x λ old held.
        after_fail_if _ (is_expired env old) _ _ x λ live.
          after_fail_if _ (ltb_ℤ old.amount amount) _ _ x λ covered.
            after_ok_or _ (checked_sub old.amount amount) _ _ x λ left taken.
              let stored : s.allowances ≡ some m = sym p.1 ∙ found in
              let exact = (checked_sub-eq old.amount amount taken).0 in
              (
                p.0,
                (
                  rw stored (rw held live),
                  rw stored (rw held (ground arith)),
                  λ o q. rw stored (
                      rw held (rw (get_or-set no_allowance (from, spender) (o, q) _ m) (rw exact))),
                ),
              );
}

-- A transfer on someone's behalf that succeeds has the same effect on the balances, and takes the
-- amount from the caller's allowance, which was live and covered it; the expiry and all other
-- allowances stay.
pub transfer_from-HasMoved :
    (env : Env) (spender from to : Address) (amount : ℤ) (s : Store)
    → Post
        (λ s'. HasMoved from to amount s s' × HasSpent env from spender amount s s')
        (transfer_from env spender from to amount s)
unfolding transfer_from
transfer_from-HasMoved env spender from to amount s = (steps.turned s (SameBalances-refl s, refl))
  where
    moves :
        leb_ℤ amount (pos 0) ≡ false
        → Turns
            (λ x. SameBalances s x × HasSpent env from spender amount s x)
            (λ s'. HasMoved from to amount s s' × HasSpent env from spender amount s s')
            (move_balance from to amount)
    moves = move_balance-Turns (HasSpent env from spender amount s) s from to amount (λ x m h. h)

    spends :
        (f : Unit {0} → M Store TokenError (Unit {0}))
        → ((u : Unit {0})
            → Turns
                (λ x. SameBalances s x × HasSpent env from spender amount s x)
                (λ s'. HasMoved from to amount s s' × HasSpent env from spender amount s s')
                (f u))
        → Turns
            (SameMoney s)
            (λ s'. HasMoved from to amount s s' × HasSpent env from spender amount s s')
            (consume_allowance env from spender amount >>= f)
    spends f = Turns-through f (consume_allowance-Turns env from spender amount s)

    steps :
        Turns
          (SameMoney s)
          (λ s'. HasMoved from to amount s s' × HasSpent env from spender amount s s')
          (transfer_from env spender from to amount)
    steps = search (turning, Keeps-when_not_paused, spends, moves) depth 26
