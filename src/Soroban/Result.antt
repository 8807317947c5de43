-- ===== src/Soroban/Result.antt =====
-- `Result` with the `?` operator, for functions that touch no storage.
use moistello_contracts.Prelude.{Option, none, some, Bool, if◌then◌else◌}

-- `Result`, with the host's trap (a panic, or a missing authorization) as a third outcome.
pub data Result {ℓ κ} (E : Type ℓ) (A : Type κ) : Type (ℓ ⊔ κ) where
  ok : A → Result E A
  err : E → Result E A
  trap : Result E A

infixl 5 ◌>>=◌ ◌>>◌
abbrev pub ◌>>=◌ {ℓ κ ι} :
    {E : Type ℓ} {A : Type κ} {B : Type ι} → Result E A → (A → Result E B) → Result E B
ok a >>= f = f a
err e >>= f = err e
trap >>= f = trap

abbrev pub ◌>>◌ {ℓ ι} : {E : Type ℓ} {B : Type ι} → Result E (Unit {0}) → Result E B → Result E B
m >> k = m >>= λ _. k

-- `o.ok_or(e)`
abbrev pub result_ok_or {ℓ κ} : {E : Type ℓ} {A : Type κ} → Option A → E → Result E A
result_ok_or none e = err e
result_ok_or (some a) e = ok a

-- `if b { return Err(e); }`
abbrev pub result_fail_if {ℓ} : {E : Type ℓ} → Bool → E → Result E (Unit {0})
result_fail_if b e = if b then err e else ok tt

-- `r.map_err(|_| e)`
abbrev pub result_or_err {ℓ κ ι} :
    {E : Type ℓ} {F : Type κ} {A : Type ι} → Result F A → E → Result E A
result_or_err (ok a) e = ok a
result_or_err (err f) e = err e
result_or_err trap e = trap
