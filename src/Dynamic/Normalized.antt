-- ===== src/Dynamic/Normalized.antt =====
-- `Normalized` and `integer_sqrt` of dynamic_amount.rs: the normalized numbers that locate interior
-- candidates.
pub mod Root
use sol_arb_executor.Prelude.{
  ℕ, zero, suc, ◌+◌, ◌-◌, ◌*◌, ◌/◌, ◌%◌, ◌^◌, min, Bool, true, false, ◌||◌, ◌&&◌, not, Option, none,
  some, List, [], ◌∷◌, ltb, leb, ◌==◌, if◌then◌else◌,
}
use sol_arb_executor.Prelude.Int.{ℤ, pos, negsuc, ◌+ℤ◌, ◌-ℤ◌, ◌==ℤ◌, ltb_ℤ, leb_ℤ}
use sol_arb_executor.Word.{u64_size, u128_size, fits, checked_mul_u128}

-- The `?` of an `Option`.
infixl 5 ◌>>=◌
abbrev pub ◌>>=◌ : {A B : Type 0} → Option A → (A → Option B) → Option B
none >>= next = none
some value >>= next = next value

pub record Normalized : Type 0 where
  pub mantissa : ℕ
  pub exponent : ℤ

-- An i32 result, if it is in range.
abbrev pub fits_i32 : ℤ → Option ℤ
fits_i32 z = if leb_ℤ (negsuc (2 ^ 31 - 1)) z && leb_ℤ z (pos (2 ^ 31 - 1)) then some z else none

-- `128 - value.leading_zeros()`, for the bits that are left.
unfoldable pub bit_length : ℕ → ℕ → ℕ
bit_length zero value = 0
bit_length (suc bits) value = elim (value == 0) [
  | true ↦ 0
  | false ↦ bit_length bits (value / 2) + 1
]

unfoldable pub from_u128 : ℕ → Option Normalized
from_u128 value =
    let bits = bit_length 128 value in
    if value == 0
    then none
    else some (record {
      mantissa = if leb bits 64 then value * 2 ^ (64 - bits) else value / 2 ^ (bits - 64);
      exponent = pos (bits - 1);
    })

unfoldable pub multiply : Normalized → Normalized → Option Normalized
multiply a b = do
  product ← checked_mul_u128 a.mantissa b.mantissa
  let mantissa = product / 2 ^ 63
  exponent ← fits_i32 (a.exponent +ℤ b.exponent)
  let large = leb (2 ^ 64) mantissa
  carried ← if large then fits_i32 (exponent +ℤ pos 1) else some exponent
  narrowed ← fits u64_size (if large then mantissa / 2 else mantissa)
  some (record { mantissa = narrowed; exponent = carried })

-- A mantissa made by `from_u128` is not zero.
unfoldable pub divide : Normalized → Normalized → Option Normalized
divide a b = do
  let quotient = a.mantissa * 2 ^ 63 / b.mantissa
  exponent ← fits_i32 (a.exponent -ℤ b.exponent)
  let small = ltb quotient (2 ^ 63)
  borrowed ← if small then fits_i32 (exponent -ℤ pos 1) else some exponent
  narrowed ← fits u64_size (if small then quotient * 2 else quotient)
  some (record { mantissa = narrowed; exponent = borrowed })

-- `compare(…) != Greater` and `compare(…) != Less`.
unfoldable pub not_greater : Normalized → Normalized → Bool
not_greater a b =
    ltb_ℤ a.exponent b.exponent || (a.exponent ==ℤ b.exponent && leb a.mantissa b.mantissa)

unfoldable pub not_less : Normalized → Normalized → Bool
not_less a b = not_greater b a

-- The loop of `integer_sqrt`, on fuel, and none where that runs out. The estimate falls in every
-- round.
unfoldable pub newton : ℕ → ℕ → ℕ → Option ℕ
newton zero value estimate = none
newton (suc fuel) value estimate = elim (leb estimate ((estimate + value / estimate) / 2)) [
  | true ↦ some estimate
  | false ↦ newton fuel value ((estimate + value / estimate) / 2)
]

unfoldable pub integer_sqrt : ℕ → Option ℕ
integer_sqrt value =
    let estimate = 2 ^ ((bit_length 128 value + 1) / 2) in
    if ltb value 2 then some value else newton (estimate + 1) value estimate

-- `exponent.rem_euclid(2) != 0`.
unfoldable pub is_odd : ℤ → Bool
is_odd (pos n) = n % 2 == 1
is_odd (negsuc n) = n % 2 == 0

-- Half of an even exponent.
unfoldable pub half : ℤ → ℤ
half (pos n) = pos (n / 2)
half (negsuc n) = negsuc ((n + 1) / 2 - 1)

-- The shift at the end; a right shift is below 128 for the ratios that the search forms.
unfoldable pub shifted : ℕ → ℤ → Option ℕ
shifted root (pos n) = if ltb n 128 then some (root * 2 ^ n % u128_size) else none
shifted root (negsuc n) = some (root / 2 ^ (n + 1))

unfoldable pub sqrt_floor : Normalized → Option ℕ
sqrt_floor a = do
  let odd = is_odd a.exponent
  mantissa ← if odd then checked_mul_u128 a.mantissa 2 else some a.mantissa
  exponent ← if odd then fits_i32 (a.exponent -ℤ pos 1) else some a.exponent
  scaled_root ← integer_sqrt (mantissa * 2 ^ 63 % u128_size)
  shift ← fits_i32 (half exponent -ℤ pos 63)
  shifted scaled_root shift

unfoldable pub multiply_all : List ℕ → Normalized → Option Normalized
multiply_all [] value = some value
multiply_all (numerator ∷ numerators) value = do
  factor ← from_u128 numerator
  product ← multiply value factor
  multiply_all numerators product

unfoldable pub divide_all : List ℕ → Normalized → Option Normalized
divide_all [] value = some value
divide_all (denominator ∷ denominators) value = do
  divisor ← from_u128 denominator
  quotient ← divide value divisor
  divide_all denominators quotient

unfoldable pub normalized_product_ratio : List ℕ → List ℕ → Option Normalized
normalized_product_ratio numerators denominators = do
  one ← from_u128 1
  product ← multiply_all numerators one
  divide_all denominators product

unfoldable pub normalized_square : ℕ → Option Normalized
normalized_square value = do normalized ← from_u128 value; multiply normalized normalized

-- `option.is_some_and(…)`.
abbrev pub is_some_and : Option Normalized → (Normalized → Bool) → Bool
is_some_and none test = false
is_some_and (some a) test = test a

abbrev pub interior_root_prefilter_margin : ℕ
interior_root_prefilter_margin = 32

unfoldable pub sqrt_interval_definitely_excludes : Normalized → ℕ → ℕ → Bool
sqrt_interval_definitely_excludes squared_value lower_root upper_root =
    let lower = lower_root - interior_root_prefilter_margin in
    let upper = min (upper_root + interior_root_prefilter_margin) (2 ^ 128 - 1) in
    is_some_and (normalized_square lower) (not_greater squared_value)
    || is_some_and (normalized_square upper) (not_less squared_value)
