-- ===== src/Prelude/Machine.antt =====
-- The machine integers u32 and u64, by their values. A plain `+` wraps: the release profile of
-- Cargo.toml does not ask for overflow checks.
use Prim.Native.Nat.{ℕ, ◌+◌, ◌-◌, ◌*◌, ◌%◌}
use mathlib.Core.Option.{Option, none, some}
use moistello_contracts.Prelude.Tests.{leb, if◌then◌else◌}
use moistello_contracts.Prelude.Int.{ℤ, pos, negsuc, ◌+ℤ◌, ltb_ℤ, in_i128, i128_max}

abbrev pub u32_max : ℕ
u32_max = 4294967295

abbrev pub u64_max : ℕ
u64_max = 18446744073709551615

abbrev pub wrapping_u32 : ℕ → ℕ
wrapping_u32 n = n % 4294967296

abbrev pub min : ℕ → ℕ → ℕ
min a b = if leb a b then a else b

abbrev pub saturating_add_u32 : ℕ → ℕ → ℕ
saturating_add_u32 a b = min (a + b) u32_max

abbrev pub saturating_mul_u32 : ℕ → ℕ → ℕ
saturating_mul_u32 a b = min (a * b) u32_max

abbrev pub saturating_mul_u64 : ℕ → ℕ → ℕ
saturating_mul_u64 a b = min (a * b) u64_max

abbrev pub checked_in : ℕ → ℕ → Option ℕ
checked_in limit n = if leb n limit then some n else none

abbrev pub checked_add_u32 : ℕ → ℕ → Option ℕ
checked_add_u32 a b = checked_in u32_max (a + b)

abbrev pub checked_add_u64 : ℕ → ℕ → Option ℕ
checked_add_u64 a b = checked_in u64_max (a + b)

-- `x as u32` of an `i128`: the last 32 bits of its two's complement.
abbrev pub as_u32 : ℤ → ℕ
as_u32 (pos n) = n % 4294967296
as_u32 (negsuc n) = u32_max - n % 4294967296

-- `i128::saturating_add`: a sum outside of the range is replaced by the nearest end of the range.
abbrev pub saturating_add : ℤ → ℤ → ℤ
saturating_add a b =
    let total = a +ℤ b in
    if in_i128 total then total else if ltb_ℤ total (pos 0) then negsuc i128_max else pos i128_max

abbrev pub u128_max : ℕ
u128_max = 340282366920938463463374607431768211455

abbrev pub saturating_add_u128 : ℕ → ℕ → ℕ
saturating_add_u128 a b = min (a + b) u128_max

abbrev pub saturating_mul_u128 : ℕ → ℕ → ℕ
saturating_mul_u128 a b = min (a * b) u128_max

-- `x as u128` of an `i128`, and `x as i128` of a `u128`: the same 128 bits.
abbrev pub as_u128 : ℤ → ℕ
as_u128 (pos n) = n
as_u128 (negsuc n) = u128_max - n

abbrev pub as_i128 : ℕ → ℤ
as_i128 n = if leb n i128_max then pos n else negsuc (u128_max - n)
