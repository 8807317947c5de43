-- ===== src/Prelude/Lists.antt =====
-- Vectors as lists: length and indexing over the native numbers, and appending at the end.
use Prim.Native.Nat.{ℕ, zero, suc, ◌+◌}
use mathlib.Core.Path.{◌≡◌}
use mathlib.Core.Option.{Option, none, some}
use mathlib.Core.List.{List, [], ◌∷◌, ◌++◌}
use native.Mathlib.Omega.{arith}

module _ {ℓ} {A : Type ℓ} where
  abbrev pub length : List A → ℕ
  length [] = 0
  length (x ∷ xs) = suc (length xs)

  abbrev pub get_elem? : List A → ℕ → Option A
  get_elem? [] i = none
  get_elem? (x ∷ xs) zero = some x
  get_elem? (x ∷ xs) (suc i) = get_elem? xs i

  -- `push_back`
  abbrev pub push_back : List A → A → List A
  push_back xs x = xs ++ (x ∷ [])

  pub length-append : (xs ys : List A) → length (xs ++ ys) ≡ length xs + length ys
  length-append [] ys = omega arith
  length-append (x ∷ xs) ys = omega (arith, length-append xs ys)

  pub length-push_back : (xs : List A) (x : A) → length (push_back xs x) ≡ length xs + 1
  length-push_back xs x = omega (arith, length-append xs (x ∷ []))
