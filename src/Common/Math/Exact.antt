-- ===== src/Common/Math/Exact.antt =====
-- What a contract function that calls `safe_add` or `safe_sub` of math.rs may use of the result.
use moistello_contracts.Prelude.{
  ℤ, ◌+ℤ◌, ◌-ℤ◌, ◌≡◌, refl, Option, none, some, InI128, checked_add, checked_sub, checked_add-eq,
  checked_sub-eq,
}
use moistello_contracts.Soroban.Result.{result_ok_or}
use moistello_contracts.Soroban.Contract.{M, ◌>>=◌, or_err}
use moistello_contracts.Soroban.Outcome.{Post}
use moistello_contracts.Common.Math.{MathError, overflow, underflow, safe_add, safe_sub}

module _ {S E B : Type 0} (Q : S → Type 0) where
  after_checked :
      (o : Option ℤ) (f : MathError) (e : E) (k : ℤ → M S E B) (s : S)
      → ((c : ℤ) → o ≡ some c → Post Q (k c s))
      → Post Q ((or_err (result_ok_or o f) e >>= k) s)
  after_checked none f e k s h = tt
  after_checked (some c) f e k s h = h c refl

  pub after_safe_add :
      (a b : ℤ) (e : E) (k : ℤ → M S E B) (s : S)
      → ((c : ℤ) → (c ≡ a +ℤ b) × InI128 c → Post Q (k c s))
      → Post Q ((or_err (safe_add a b) e >>= k) s)
  unfolding safe_add
  after_safe_add a b e k s h =
      after_checked (checked_add a b) overflow e k s (λ c added. h c (checked_add-eq a b added))

  pub after_safe_sub :
      (a b : ℤ) (e : E) (k : ℤ → M S E B) (s : S)
      → ((c : ℤ) → (c ≡ a -ℤ b) × InI128 c → Post Q (k c s))
      → Post Q ((or_err (safe_sub a b) e >>= k) s)
  unfolding safe_sub
  after_safe_sub a b e k s h =
      after_checked (checked_sub a b) underflow e k s (λ c taken. h c (checked_sub-eq a b taken))
