-- ===== src/Quote/Pump/Fees.antt =====
-- The fee arithmetic of the Pump quotes as numbers: what `fee_for` and `effective_quote_for`
-- compute when the inputs have the widths of their Rust types.
use native.Mathlib.Nat.{mul-le-mul, div-mul-le_self}
use sol_arb_executor.Prelude.{ℕ, ◌+◌, ◌-◌, ◌*◌, ◌/◌, ◌≤◌, ◌<◌, ◌≡◌, arith}
use sol_arb_executor.Errors.{ok}
use sol_arb_executor.Word.{u16_size, u64_size, u128_size, checked_mul_u128_lt}
use sol_arb_executor.Quote.Basic.{ceil_quot, ceil_div_lt}
use sol_arb_executor.Quote.Pump.{fee_for}

-- A product of numbers below two bounds.
pub mul-lt : (a b m n : ℕ) → a ≤ m → b ≤ n → m * n < u128_size → a * b < u128_size
mul-lt a b m n h k l = omega (arith, mul-le-mul h k)

-- A fee of `bps` basis points, rounded up.
abbrev pub fee_quot : ℕ → ℕ → ℕ
fee_quot amount bps = ceil_quot (amount * bps) 10_000

-- What is left of `quote_in` before the correction for rounding.
abbrev pub gross_quote : ℕ → ℕ → ℕ → ℕ → ℕ
gross_quote quote_in lp protocol creator = quote_in * 10_000 / (10_000 + (lp + protocol + creator))

-- An amount and the three fees on it.
abbrev pub with_fees : ℕ → ℕ → ℕ → ℕ → ℕ
with_fees amount lp protocol creator =
    amount + fee_quot amount lp + fee_quot amount protocol + fee_quot amount creator

-- After the correction: the excess of amount and fees over `quote_in` is taken off.
abbrev pub net_quote : ℕ → ℕ → ℕ → ℕ → ℕ
net_quote quote_in lp protocol creator =
    let gross = gross_quote quote_in lp protocol creator in
    gross - (with_fees gross lp protocol creator - quote_in)

pub fee_for_lt : (a b : ℕ) → a < u64_size → b < u16_size → fee_for a b ≡ ok (fee_quot a b)
unfolding fee_for
fee_for_lt a b ha hb =
    rw
      (checked_mul_u128_lt a b
        (mul-lt a b u64_size u16_size (omega arith) (omega arith) (omega arith)))
      (ceil_div_lt (a * b) 10_000 (omega arith) (omega (arith, product)))
  where
    product : a * b ≤ u64_size * u16_size
    product =
        mul-le-mul {n₁ = a} {m₁ = b} {n₂ = u64_size} {m₂ = u16_size} (omega arith) (omega arith)

pub fee_quot-le : (a b : ℕ) → fee_quot a b * 10_000 ≤ a * b + 9_999
fee_quot-le a b = omega arith

pub gross_quote-le : (q lp p c : ℕ) → gross_quote q lp p c * (10_000 + (lp + p + c)) ≤ q * 10_000
gross_quote-le q lp p c = div-mul-le_self (q * 10_000) (10_000 + (lp + p + c))

-- Three roundings up cost less than three, so amount and fees exceed the input by two at most.
pub excess-le : (q lp p c : ℕ) → with_fees (gross_quote q lp p c) lp p c ≤ q + 2
excess-le q lp p c = go (gross_quote q lp p c) (gross_quote-le q lp p c)
  where
    go : (e : ℕ) → e * (10_000 + (lp + p + c)) ≤ q * 10_000 → with_fees e lp p c ≤ q + 2
    go e h = omega (arith, fee_quot-le e lp, fee_quot-le e p, fee_quot-le e c)

pub net_quote-le : (q lp p c : ℕ) → net_quote q lp p c ≤ q
net_quote-le q lp p c = omega (arith, excess-le q lp p c, gross_quote-le q lp p c)

pub fee_quot-lt : (a b : ℕ) → a < u64_size → b < u16_size → fee_quot a b < u64_size * u16_size
fee_quot-lt a b ha hb = omega (arith, fee_quot-le a b, product)
  where
    product : a * b ≤ (u64_size - 1) * u16_size
    product =
        mul-le-mul {n₁ = a} {m₁ = b} {n₂ = u64_size - 1} {m₂ = u16_size} (omega arith) (omega arith)

-- The correction takes off two units at most.
pub gross_quote-le-net_quote : (q lp p c : ℕ) → gross_quote q lp p c ≤ net_quote q lp p c + 2
gross_quote-le-net_quote q lp p c = omega (arith, excess-le q lp p c)

pub net_quote-le-gross_quote : (q lp p c : ℕ) → net_quote q lp p c ≤ gross_quote q lp p c
net_quote-le-gross_quote q lp p c = omega arith
