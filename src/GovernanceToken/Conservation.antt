-- ===== src/GovernanceToken/Conservation.antt =====
-- The supply of the governance token: the recorded total is the sum of the balances, after any
-- history of calls.
use Prim.Native.String.{String}
use moistello_contracts.Prelude.{
  ℕ, ◌≡◌, refl, sym, subst, ℤ, pos, ◌+ℤ◌, ◌-ℤ◌, ◌≤ℤ◌, i128_max, arith, int_laws, false, some, List,
  [], ◌∷◌, ltb_ℤ, leb_ℤ, checked_add, checked_sub, checked_add-eq, checked_sub-eq,
}
use moistello_contracts.Soroban.Contract.{Address, Env}
use moistello_contracts.Soroban.Outcome.{after_fail_if, after_ok_or, commit_keeps}
use moistello_contracts.Soroban.Keeps.{keeping, Keeps-unless, Keeps}
use moistello_contracts.Soroban.Map.{
  Map, set, get_or, sum, sum-set, Nonneg, set-All, get_or_bounds, address_key,
}
use moistello_contracts.GovernanceToken.Types.{Store}
use moistello_contracts.Common.Pause.{Keeps-when_not_paused}
use moistello_contracts.GovernanceToken.Views.{
  balances_of, total_supply, consume_allowance, is_initialized,
}
use moistello_contracts.GovernanceToken.Transfers.{move_balance}
use moistello_contracts.GovernanceToken.Transfers
use moistello_contracts.GovernanceToken.Supply
use moistello_contracts.GovernanceToken.Admin
use moistello_contracts.Common.Pause
use moistello_contracts.GovernanceToken.Supply.{burn_balance, mint_balance}
use moistello_contracts.GovernanceToken.Calls.{Call, apply, step, run, fresh}

-- The total is the sum of the balances, no balance is negative, and the total fits in `i128`.
pub record Backed (balances : Map Address ℤ) (total : ℤ) : Type 0 where
  pub supply : total ≡ sum balances
  pub nonneg : Nonneg balances
  pub bounded : total ≤ℤ pos i128_max

abbrev pub IsBacked : Store → Type 0
IsBacked s = Backed (balances_of s) (total_supply s)

-- One balance is changed, and the total by as much.
Backed-set :
    (k : Address) (v t : ℤ) (m : Map Address ℤ) {total : ℤ}
    → Backed m total
    → pos 0 ≤ℤ v
    → t ≤ℤ pos i128_max
    → t +ℤ get_or (pos 0) k m ≡ total +ℤ v
    → Backed (set k v m) t
Backed-set k v t m b p fits moved = record {
  supply = grind (int_laws, sum-set k v m, b.supply);
  nonneg = set-All _ k v m p b.nonneg;
  bounded = fits;
}

-- Taking an amount that is covered lowers the total.
pub Backed-debit :
    (k : Address) (amount left : ℤ) (m : Map Address ℤ) (total : ℤ)
    → Backed m total
    → pos 0 ≤ℤ amount
    → ltb_ℤ (get_or (pos 0) k m) amount ≡ false
    → checked_sub (get_or (pos 0) k m) amount ≡ some left
    → Backed (set k left m) (total -ℤ amount)
Backed-debit k amount left m total b p covered taken =
    let exact = (checked_sub-eq (get_or (pos 0) k m) amount taken).0 in
    let room : amount ≤ℤ get_or (pos 0) k m = ground arith in
    Backed-set k left (total -ℤ amount) m b (rw exact (omega (int_laws, room)))
      (omega (int_laws, b.bounded)) (rw exact (omega int_laws))

-- Giving an amount raises the total.
Backed-credit :
    (k : Address) (amount new : ℤ) (m : Map Address ℤ) (total : ℤ)
    → Backed m total
    → pos 0 ≤ℤ amount
    → total +ℤ amount ≤ℤ pos i128_max
    → checked_add (get_or (pos 0) k m) amount ≡ some new
    → Backed (set k new m) (total +ℤ amount)
Backed-credit k amount new m total b p fits given =
    let exact = (checked_add-eq (get_or (pos 0) k m) amount given).0 in
    Backed-set k new (total +ℤ amount) m b (rw exact (omega (int_laws, get_or_bounds k m b.nonneg)))
      fits (rw exact (omega int_laws))

Backed-eq : {m : Map Address ℤ} {t u : ℤ} → t ≡ u → Backed m t → Backed m u
Backed-eq {m} e b = subst (Backed m) e b

move_balance-IsBacked :
    (from to : Address) (amount : ℤ)
    → leb_ℤ amount (pos 0) ≡ false
    → Keeps IsBacked (move_balance from to amount)
unfolding move_balance
move_balance-IsBacked from to amount positive = record {
  holds = λ s b.
      let p : pos 0 ≤ℤ amount = ground arith in
      after_ok_or _ s.balances _ _ s λ m found.
        after_fail_if _ (ltb_ℤ (get_or (pos 0) from m) amount) _ _ s λ covered.
          after_ok_or _ (checked_sub (get_or (pos 0) from m) amount) _ _ s λ left taken.
            after_ok_or _ (checked_add (get_or (pos 0) to (set from left m)) amount) _ _ s
              λ new given.
                let total = total_supply s in
                let backed : Backed m total = rw found at b in
                let debited = Backed-debit from amount left m total backed p covered taken in
                Backed-eq (omega int_laws) (
                  Backed-credit to amount new (set from left m) (total -ℤ amount) debited p
                    (omega (int_laws, backed.bounded)) given);
}

-- A debit of the balance and of the total alike.
burn_balance-IsBacked :
    (from : Address) (amount : ℤ)
    → leb_ℤ amount (pos 0) ≡ false
    → Keeps IsBacked (burn_balance from amount)
unfolding burn_balance
burn_balance-IsBacked from amount positive = record {
  holds = λ s b.
      let p : pos 0 ≤ℤ amount = ground arith in
      after_ok_or _ s.balances _ _ s λ m found.
        after_fail_if _ (ltb_ℤ (get_or (pos 0) from m) amount) _ _ s λ covered.
          after_ok_or _ (checked_sub (get_or (pos 0) from m) amount) _ _ s λ left taken.
            after_ok_or _ (checked_sub (total_supply s) amount) _ _ _ λ new lowered.
              let backed : Backed m (total_supply s) = rw found at b in
              Backed-eq (sym (checked_sub-eq (total_supply s) amount lowered).0)
                (Backed-debit from amount left m (total_supply s) backed p covered taken);
}

mint_balance-IsBacked :
    (to : Address) (amount : ℤ)
    → leb_ℤ amount (pos 0) ≡ false
    → Keeps IsBacked (mint_balance to amount)
unfolding mint_balance
mint_balance-IsBacked to amount positive = record {
  holds = λ s b.
      let p : pos 0 ≤ℤ amount = ground arith in
      after_ok_or _ s.balances _ _ s λ m found.
        after_ok_or _ (checked_add (get_or (pos 0) to m) amount) _ _ s λ new given.
          after_ok_or _ (checked_add (total_supply s) amount) _ _ _ λ total raised.
            let backed : Backed m (total_supply s) = rw found at b in
            let exact = checked_add-eq (total_supply s) amount raised in
            Backed-eq (sym exact.0) (
              Backed-credit to amount new m (total_supply s) backed p
                (rw (sym exact.0) (omega (arith, exact.1))) given);
}

-- The functions that leave the balances and the total alone, or change both by one of the above.
ruleset backing = (
  keeping, Keeps-when_not_paused, Keeps-unless, move_balance-IsBacked, mint_balance-IsBacked,
  burn_balance-IsBacked,
)

consume_allowance-IsBacked :
    (env : Env) (from spender : Address) (amount : ℤ)
    → Keeps IsBacked (consume_allowance env from spender amount)
unfolding consume_allowance
consume_allowance-IsBacked env from spender amount = search backing depth 14

initialize-IsBacked :
    (admin : Address) (name symbol : String) (decimals : ℕ)
    → Keeps IsBacked (Supply.initialize admin name symbol decimals)
unfolding Supply.initialize
initialize-IsBacked admin name symbol decimals = record {
  holds = λ s b.
      after_fail_if _ (is_initialized s) _ _ s
        λ first. record { supply = refl; nonneg = tt; bounded = omega arith };
}

-- Every call keeps the supply backed.
apply-IsBacked : (env : Env) (c : Call) → Keeps IsBacked (apply env c)
unfolding Transfers.transfer Transfers.transfer_from Transfers.approve Supply.mint Supply.burn
    Supply.burn_from Supply.admin_burn_from Supply.clawback Admin.freeze Admin.unfreeze
    Admin.set_admin Admin.pause Admin.unpause Admin.set_allowlist_mode Admin.add_to_allowlist
    Admin.remove_from_allowlist Admin.write_frozen Transfers.write_allowance Pause.pause
    Pause.unpause
apply-IsBacked env (Call.initialize admin name symbol decimals) =
    initialize-IsBacked admin name symbol decimals
apply-IsBacked env c = search (backing, consume_allowance-IsBacked) depth 26

pub step-IsBacked : (env : Env) (c : Call) (s : Store) → IsBacked s → IsBacked (step env c s)
unfolding step
step-IsBacked env c s b =
    commit_keeps IsBacked s (apply env c s) b ((apply-IsBacked env c).holds s b)

pub run-IsBacked : (cs : List (Env × Call)) (s : Store) → IsBacked s → IsBacked (run cs s)
unfolding run
run-IsBacked [] s b = b
run-IsBacked ((env, c) ∷ cs) s b = run-IsBacked cs (step env c s) (step-IsBacked env c s b)

-- After any history of calls by anyone, failed ones included, the recorded total supply of the
-- token is the sum of all balances, no balance is negative, and the total fits in `i128`.
pub run-fresh-IsBacked : (cs : List (Env × Call)) → IsBacked (run cs fresh)
run-fresh-IsBacked cs =
    run-IsBacked cs fresh (record { supply = refl; nonneg = tt; bounded = omega arith })
