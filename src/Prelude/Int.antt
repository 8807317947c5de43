-- ===== src/Prelude/Int.antt =====
-- Signed integers over the native numbers, with the checked operations of the type `i128`.
-- Sums and orders go through the two parts of an integer, which are numbers that `omega` reads.
use Prim.Native.Nat.{ℕ, suc, ◌+◌, ◌-◌, ◌*◌, ◌/◌, ◌^◌, ◌≤◌, ◌<◌}
use mathlib.Core.Path.{◌≡◌}
use mathlib.Core.Bool.{Bool, ◌&&◌}
use mathlib.Core.Option.{Option, none, some}
use native.Mathlib.Omega.{arith}
use native.Mathlib.Nat.{div-le_self}
use moistello_contracts.Prelude.Tests.{ltb, leb, ◌==◌, if◌then◌else◌}

-- `negsuc n` is -(n + 1).
pub data ℤ : Type 0 where
  pos : ℕ → ℤ
  negsuc : ℕ → ℤ

abbrev pub pos_part : ℤ → ℕ
pos_part (pos n) = n
pos_part (negsuc n) = 0

abbrev pub neg_part : ℤ → ℕ
neg_part (pos n) = 0
neg_part (negsuc n) = suc n

-- a - b, as an integer.
abbrev pub sub_ℕ : ℕ → ℕ → ℤ
sub_ℕ a b = if leb b a then pos (a - b) else negsuc (b - a - 1)

infixl 65 ◌+ℤ◌ ◌-ℤ◌
infixl 70 ◌*ℤ◌ ◌/ℤ◌
infix 50 ◌≤ℤ◌ ◌<ℤ◌
unfoldable pub ◌+ℤ◌ : ℤ → ℤ → ℤ
a +ℤ b = sub_ℕ (pos_part a + pos_part b) (neg_part a + neg_part b)

unfoldable pub ◌-ℤ◌ : ℤ → ℤ → ℤ
a -ℤ b = sub_ℕ (pos_part a + neg_part b) (neg_part a + pos_part b)

unfoldable pub ◌*ℤ◌ : ℤ → ℤ → ℤ
a *ℤ b =
    sub_ℕ (pos_part a * pos_part b + neg_part a * neg_part b)
      (pos_part a * neg_part b + neg_part a * pos_part b)

-- Division towards zero.
unfoldable pub ◌/ℤ◌ : ℤ → ℤ → ℤ
pos a /ℤ pos b = pos (a / b)
pos a /ℤ negsuc b = sub_ℕ 0 (a / suc b)
negsuc a /ℤ pos b = sub_ℕ 0 (suc a / b)
negsuc a /ℤ negsuc b = pos (suc a / suc b)

abbrev pub ◌≤ℤ◌ : ℤ → ℤ → Type 0
a ≤ℤ b = pos_part a + neg_part b ≤ pos_part b + neg_part a

abbrev pub ◌<ℤ◌ : ℤ → ℤ → Type 0
a <ℤ b = suc (pos_part a + neg_part b) ≤ pos_part b + neg_part a

abbrev pub ltb_ℤ : ℤ → ℤ → Bool
ltb_ℤ a b = ltb (pos_part a + neg_part b) (pos_part b + neg_part a)

abbrev pub leb_ℤ : ℤ → ℤ → Bool
leb_ℤ a b = leb (pos_part a + neg_part b) (pos_part b + neg_part a)

abbrev pub eqb_ℤ : ℤ → ℤ → Bool
eqb_ℤ a b = (pos_part a + neg_part b) == (pos_part b + neg_part a)

pub +ℤ_parts :
    (a b : ℤ)
    → pos_part (a +ℤ b) + neg_part a + neg_part b ≡ neg_part (a +ℤ b) + pos_part a + pos_part b
unfolding ◌+ℤ◌
+ℤ_parts a b = ground arith

pub -ℤ_parts :
    (a b : ℤ)
    → pos_part (a -ℤ b) + neg_part a + pos_part b ≡ neg_part (a -ℤ b) + pos_part a + neg_part b
unfolding ◌-ℤ◌
-ℤ_parts a b = ground arith

pub eq_of_parts : (a b : ℤ) → pos_part a + neg_part b ≡ pos_part b + neg_part a → a ≡ b
eq_of_parts a b h = ground arith

pub ruleset int_laws = (arith, +ℤ_parts, -ℤ_parts, eq_of_parts)

-- The bounds of `i128`, and its checked operations, which are none on overflow.
abbrev pub i128_max : ℕ
i128_max = 2 ^ 127 - 1

-- The value lies between -2^127 and 2^127 - 1.
abbrev pub in_i128 : ℤ → Bool
in_i128 a = leb (pos_part a) i128_max && leb (neg_part a) (2 ^ 127)

abbrev pub checked : ℤ → Option ℤ
checked a = if in_i128 a then some a else none

unfoldable pub checked_add : ℤ → ℤ → Option ℤ
checked_add a b = checked (a +ℤ b)

unfoldable pub checked_sub : ℤ → ℤ → Option ℤ
checked_sub a b = checked (a -ℤ b)

unfoldable pub checked_mul : ℤ → ℤ → Option ℤ
checked_mul a b = checked (a *ℤ b)

unfoldable pub checked_div : ℤ → ℤ → Option ℤ
checked_div a b = if eqb_ℤ b (pos 0) then none else checked (a /ℤ b)

-- The predicate that `in_i128` decides.
abbrev pub InI128 : ℤ → Type 0
InI128 a = (pos_part a ≤ i128_max) × (neg_part a ≤ 2 ^ 127)

pub checked_add-some : (a b : ℤ) → InI128 (a +ℤ b) → checked_add a b ≡ some (a +ℤ b)
unfolding checked_add
checked_add-some a b h = ground arith

pub checked_sub-some : (a b : ℤ) → InI128 (a -ℤ b) → checked_sub a b ≡ some (a -ℤ b)
unfolding checked_sub
checked_sub-some a b h = ground arith

-- A checked operation that returns a value returns the exact one, in range.
pub checked_add-eq : (a b : ℤ) {c : ℤ} → checked_add a b ≡ some c → (c ≡ a +ℤ b) × InI128 c
unfolding checked_add
checked_add-eq a b h = ground arith

pub checked_sub-eq : (a b : ℤ) {c : ℤ} → checked_sub a b ≡ some c → (c ≡ a -ℤ b) × InI128 c
unfolding checked_sub
checked_sub-eq a b h = ground arith

checked-eq : (a : ℤ) {c : ℤ} → checked a ≡ some c → (c ≡ a) × InI128 c
checked-eq a h = ground arith

pub checked_mul-eq : (a b : ℤ) {c : ℤ} → checked_mul a b ≡ some c → (c ≡ a *ℤ b) × InI128 c
unfolding checked_mul
checked_mul-eq a b h = checked-eq (a *ℤ b) h

-- The operations on values that are not negative.
pub checked_mul_pos :
    (a b : ℕ) → a * b ≤ i128_max → checked_mul (pos a) (pos b) ≡ some (pos (a * b))
unfolding checked_mul ◌*ℤ◌
checked_mul_pos a b h = ground arith

pub checked_mul_overflow : (a b : ℕ) → i128_max < a * b → checked_mul (pos a) (pos b) ≡ none
unfolding checked_mul ◌*ℤ◌
checked_mul_overflow a b h = ground arith

pub checked_div_pos :
    (a b : ℕ) → 0 < b → a ≤ i128_max → checked_div (pos a) (pos b) ≡ some (pos (a / b))
unfolding checked_div ◌/ℤ◌
checked_div_pos a b p h = ground (arith, div-le_self a b)

pub checked_sub_pos :
    (a b : ℕ) → b ≤ a → a ≤ i128_max → checked_sub (pos a) (pos b) ≡ some (pos (a - b))
unfolding checked_sub ◌-ℤ◌
checked_sub_pos a b h m = ground arith

pub +ℤ_pos : (a b : ℕ) → pos a +ℤ pos b ≡ pos (a + b)
unfolding ◌+ℤ◌
+ℤ_pos a b = ground arith

pub -ℤ_pos : (a b : ℕ) → b ≤ a → pos a -ℤ pos b ≡ pos (a - b)
unfolding ◌-ℤ◌
-ℤ_pos a b h = ground arith

pub InI128-nonneg : (a : ℤ) → pos 0 ≤ℤ a → a ≤ℤ pos i128_max → InI128 a
InI128-nonneg (pos n) p h = omega arith
InI128-nonneg (negsuc n) p h = absurd (omega arith)
