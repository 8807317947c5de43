-- ===== src/Soroban/Contract.antt =====
-- One contract invocation. A contract function reads the environment and turns the contract's
-- storage into a result with the new storage. The host discards every write of an invocation that
-- returns an error or traps, so a failed step carries no storage.
use moistello_contracts.Prelude.{ℕ, Bool, true, false, Option, none, some}
use moistello_contracts.Soroban.Result.{Result, ok, err, trap}

-- `Address`: the host only compares and orders addresses.
abbrev pub Address : Type 0
Address = ℕ

-- What an invocation reads of `Env`: who has authorized it (`require_auth`), the contract's own
-- address, and the ledger's sequence number and timestamp.
pub record Env : Type 0 where
  pub authorized : Address → Bool
  pub current_contract : Address
  pub sequence : ℕ
  pub timestamp : ℕ

abbrev pub M : Type 0 → Type 0 → Type 0 → Type 0
M S E A = S → Result E (A × S)

-- What follows a step, given the step's outcome.
abbrev pub and_then : {S E A B : Type 0} → Result E (A × S) → (A → M S E B) → Result E (B × S)
and_then (ok (a, s)) f = f a s
and_then (err e) f = err e
and_then trap f = trap

infixl 5 ◌>>=◌ ◌>>◌
abbrev pub ◌>>=◌ : {S E A B : Type 0} → M S E A → (A → M S E B) → M S E B
◌>>=◌ m f s = and_then (m s) f

abbrev pub ◌>>◌ : {S E B : Type 0} → M S E (Unit {0}) → M S E B → M S E B
m >> k = m >>= λ _. k

module _ {S E : Type 0} where
  abbrev pub pure : {A : Type 0} → A → M S E A
  pure a s = ok (a, s)

  abbrev pub throw : {A : Type 0} → E → M S E A
  throw e s = err e

  abbrev pub gets : {A : Type 0} → (S → A) → M S E A
  gets f s = ok (f s, s)

  abbrev pub modify : (S → S) → M S E (Unit {0})
  modify f s = ok (tt, f s)

  -- `o.ok_or(e)?`
  abbrev pub ok_or : {A : Type 0} → Option A → E → M S E A
  ok_or none e s = err e
  ok_or (some a) e s = ok (a, s)

  -- `storage.get(key).ok_or(e)?`
  abbrev pub load : {A : Type 0} → (S → Option A) → E → M S E A
  load f e s = ok_or (f s) e s

  -- `if b { return Err(e); }`
  abbrev pub fail_if : Bool → E → M S E (Unit {0})
  fail_if true e s = err e
  fail_if false e s = ok (tt, s)

  -- Trap unless the condition holds.
  abbrev pub require : Bool → M S E (Unit {0})
  require true s = ok (tt, s)
  require false s = trap

  -- `if b { m }`, and the rest after it in either case
  abbrev pub when : Bool → (S → S) → M S E (Unit {0})
  when true f s = ok (tt, f s)
  when false f s = ok (tt, s)

  -- `address.require_auth()`
  abbrev pub require_auth : Env → Address → M S E (Unit {0})
  require_auth env a = require (env.authorized a)

abbrev pub map_error : {S E F A : Type 0} → (E → F) → Result E (A × S) → Result F (A × S)
map_error f (ok r) = ok r
map_error f (err e) = err (f e)
map_error f trap = trap

-- `m.map_err(f)?`
abbrev pub map_err : {S E F A : Type 0} → (E → F) → M S E A → M S F A
map_err f m s = map_error f (m s)

-- `o.unwrap_or(d)`
abbrev pub unwrap_or {ℓ} : {A : Type ℓ} → A → Option A → A
unwrap_or d none = d
unwrap_or d (some a) = a

-- `r.map_err(|_| e)?`
abbrev pub or_err : {S E F A : Type 0} → Result F A → E → M S E A
or_err (ok a) e s = ok (a, s)
or_err (err _) e s = err e
or_err trap e s = trap

-- `r?`, for a part of a function that does not touch the storage
abbrev pub lift : {S E A : Type 0} → Result E A → M S E A
lift (ok a) s = ok (a, s)
lift (err e) s = err e
lift trap s = trap

-- `if b { m }`
abbrev pub only_if : {S E : Type 0} → Bool → M S E (Unit {0}) → M S E (Unit {0})
only_if true m s = m s
only_if false m s = ok (tt, s)

-- `if let Some(a) = o { f(a) }`
abbrev pub if_some : {S E A : Type 0} → Option A → (A → M S E (Unit {0})) → M S E (Unit {0})
if_some none f s = ok (tt, s)
if_some (some a) f s = f a s

-- `if b { m } else { n }`
abbrev pub if_else : {S E A : Type 0} → Bool → M S E A → M S E A → M S E A
if_else true m n s = m s
if_else false m n s = n s

-- The result for the whole storage of a function of a part of it.
abbrev pub put_back :
    {S V E F A : Type 0} → (V → S → S) → S → E → Result F (A × V) → Result E (A × S)
put_back put s e (ok (a, v)) = ok (a, put v s)
put_back put s e (err f) = err e
put_back put s e trap = trap

-- A function of a part of the storage, with its errors mapped to one.
abbrev pub within : {S V E F A : Type 0} → (S → V) → (V → S → S) → E → M V F A → M S E A
within part put e m s = put_back put s e (m (part s))

-- `env.storage().has(&key)` for an entry that is optional.
abbrev pub is_some {ℓ} : {A : Type ℓ} → Option A → Bool
is_some none = false
is_some (some a) = true
