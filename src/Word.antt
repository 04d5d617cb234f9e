-- ===== src/Word.antt =====
-- The checked and saturating operations of Rust's u64 and u128, on native numbers.
-- A machine integer is a plain ℕ; statements say where its width matters.
use sol_arb_executor.Prelude.{
  ℕ, ◌+◌, ◌-◌, ◌*◌, ◌^◌, ◌≤◌, ◌<◌, min, ◌≡◌, Option, none, some, ltb, leb, if◌then◌else◌, lt→ltb,
  le→leb,
}

abbrev pub u16_size : ℕ
u16_size = 2 ^ 16

abbrev pub u32_size : ℕ
u32_size = 2 ^ 32

abbrev pub u64_size : ℕ
u64_size = 2 ^ 64

abbrev pub u64_max : ℕ
u64_max = 2 ^ 64 - 1

abbrev pub u128_size : ℕ
u128_size = 2 ^ 128

-- A value that must lie below the size of its type.
abbrev pub fits : ℕ → ℕ → Option ℕ
fits size value = if ltb value size then some value else none

-- `checked_sub`, of every unsigned width.
unfoldable pub checked_sub : ℕ → ℕ → Option ℕ
checked_sub a b = if leb b a then some (a - b) else none

unfoldable pub checked_add_u64 : ℕ → ℕ → Option ℕ
checked_add_u64 a b = fits u64_size (a + b)

unfoldable pub checked_add_u128 : ℕ → ℕ → Option ℕ
checked_add_u128 a b = fits u128_size (a + b)

unfoldable pub checked_mul_u128 : ℕ → ℕ → Option ℕ
checked_mul_u128 a b = fits u128_size (a * b)

unfoldable pub saturating_add_u64 : ℕ → ℕ → ℕ
saturating_add_u64 a b = min (a + b) u64_max

pub checked_sub_le : (a b : ℕ) → b ≤ a → checked_sub a b ≡ some (a - b)
unfolding checked_sub
checked_sub_le a b h = rw (le→leb b a h)

pub checked_add_u64_lt : (a b : ℕ) → a + b < u64_size → checked_add_u64 a b ≡ some (a + b)
unfolding checked_add_u64
checked_add_u64_lt a b h = rw (lt→ltb (a + b) u64_size h)

pub checked_add_u128_lt : (a b : ℕ) → a + b < u128_size → checked_add_u128 a b ≡ some (a + b)
unfolding checked_add_u128
checked_add_u128_lt a b h = rw (lt→ltb (a + b) u128_size h)

pub checked_mul_u128_lt : (a b : ℕ) → a * b < u128_size → checked_mul_u128 a b ≡ some (a * b)
unfolding checked_mul_u128
checked_mul_u128_lt a b h = rw (lt→ltb (a * b) u128_size h)
