-- ===== src/Quote/Basic.antt =====
-- programs/sol-arb-executor/src/quote/math.rs: rounding-up division and narrowing to u64.
use sol_arb_executor.Prelude.{
  ℕ, ◌+◌, ◌-◌, ◌*◌, ◌/◌, ◌≤◌, ◌<◌, ◌≡◌, arith, ◌==◌, if◌then◌else◌, lt→ltb, pos→==,
}
use sol_arb_executor.Errors.{
  QuoteError, invalid_input, math_overflow, Result, ok, err, ◌>>=◌, ok_or,
}
use sol_arb_executor.Word.{u64_size, u128_size, fits, checked_add_u128, checked_add_u128_lt}

unfoldable pub ceil_div : ℕ → ℕ → Result QuoteError ℕ
ceil_div numerator denominator = if denominator == 0 then err invalid_input else (do
  value ← ok_or (checked_add_u128 numerator (denominator - 1)) math_overflow
  ok (value / denominator))

unfoldable pub to_u64 : ℕ → Result QuoteError ℕ
to_u64 value = ok_or (fits u64_size value) math_overflow

-- The rounded-up quotient as a number.
abbrev pub ceil_quot : ℕ → ℕ → ℕ
ceil_quot n d = (n + (d - 1)) / d

pub ceil_div_lt : (n d : ℕ) → 0 < d → n + (d - 1) < u128_size → ceil_div n d ≡ ok (ceil_quot n d)
unfolding ceil_div
ceil_div_lt n d p h = rw (pos→== d p, checked_add_u128_lt n (d - 1) h)

pub to_u64_lt : (n : ℕ) → n < u64_size → to_u64 n ≡ ok n
unfolding to_u64
to_u64_lt n h = rw (lt→ltb n u64_size h)

-- The two bounds that determine a rounded-up quotient.
pub ceil_quot_bounds : (n d : ℕ) → 0 < d → (n ≤ ceil_quot n d * d) × (ceil_quot n d * d < n + d)
ceil_quot_bounds n d p = grind arith
