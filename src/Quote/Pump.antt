-- ===== src/Quote/Pump.antt =====
-- programs/sol-arb-executor/src/quote/math.rs: the quotes of the Pump AMM.
pub mod Curve
pub mod Fees
pub mod Buy
pub mod Bounds
pub mod Sell
use sol_arb_executor.Prelude.{ℕ, ◌+◌, ◌-◌, ◌/◌, ◌||◌, Option, none, some, ltb, ◌==◌, if◌then◌else◌}
use sol_arb_executor.Errors.{
  QuoteError, invalid_input, math_overflow, insufficient_liquidity, Result, ok, err, ◌>>=◌, ok_or,
}
use sol_arb_executor.Word.{checked_sub, checked_add_u128, checked_mul_u128}
use sol_arb_executor.Quote.Types.{QuoteResult}
use sol_arb_executor.Quote.Basic.{ceil_div, to_u64}

-- `.and_then(|value| value.checked_add(fee.ok()?))`: an error of the fee becomes `None`.
unfoldable pub and_then_add : Option ℕ → Result QuoteError ℕ → Option ℕ
and_then_add none fee = none
and_then_add (some value) (ok fee) = checked_add_u128 value fee
and_then_add (some value) (err _) = none

-- The closure `fee_for` of both quotes: a fee of `bps` basis points, rounded up.
unfoldable pub fee_for : ℕ → ℕ → Result QuoteError ℕ
fee_for amount bps = do
  product ← ok_or (checked_mul_u128 amount bps) math_overflow
  ceil_div product 10_000

-- `total_fee_bps`, of the three rates.
unfoldable pub sum_bps : ℕ → ℕ → ℕ → Result QuoteError ℕ
sum_bps lp_fee_bps protocol_fee_bps creator_fee_bps = do
  partial ← ok_or (checked_add_u128 lp_fee_bps protocol_fee_bps) math_overflow
  ok_or (checked_add_u128 partial creator_fee_bps) math_overflow

-- The amount that reaches the curve: what is left of `quote_in` after the fees, corrected where
-- the rounded-up fees do not fit beside it.
unfoldable pub effective_quote_for : ℕ → ℕ → ℕ → ℕ → Result QuoteError ℕ
effective_quote_for quote_in lp_fee_bps protocol_fee_bps creator_fee_bps = do
  total_fee_bps ← sum_bps lp_fee_bps protocol_fee_bps creator_fee_bps
  scaled ← ok_or (checked_mul_u128 quote_in 10_000) math_overflow
  let effective_quote = scaled / (10_000 + total_fee_bps)
  lp_fee ← fee_for effective_quote lp_fee_bps
  total_with_fees ←
      ok_or
        (and_then_add
          (and_then_add (checked_add_u128 effective_quote lp_fee)
            (fee_for effective_quote protocol_fee_bps))
          (fee_for effective_quote creator_fee_bps))
        math_overflow
  if ltb quote_in total_with_fees
      then ok_or (checked_sub effective_quote (total_with_fees - quote_in)) math_overflow
      else ok effective_quote

-- The rest of the buy quote: the constant-product output for the effective quote.
unfoldable pub buy_on_curve : ℕ → ℕ → ℕ → ℕ → ℕ → Result QuoteError QuoteResult
buy_on_curve quote_in base_reserve quote_reserve virtual_quote_reserves effective_quote = do
  curve_input ← ok_or (checked_sub effective_quote 1) invalid_input
  effective_quote_reserve ←
      ok_or (checked_add_u128 quote_reserve virtual_quote_reserves) math_overflow
  product ← ok_or (checked_mul_u128 base_reserve curve_input) math_overflow
  divisor ← ok_or (checked_add_u128 effective_quote_reserve curve_input) math_overflow
  amount_out ← to_u64 (product / divisor)
  fee ← to_u64 (quote_in - effective_quote)
  ok (record { amount_in = quote_in; amount_out = amount_out; fee = fee })

unfoldable pub pump_buy_exact_quote_in : ℕ → ℕ → ℕ → ℕ → ℕ → ℕ → ℕ → Result QuoteError QuoteResult
pump_buy_exact_quote_in quote_in base_reserve quote_reserve virtual_quote_reserves lp_fee_bps
      protocol_fee_bps creator_fee_bps =
    if quote_in == 0 || base_reserve == 0 || quote_reserve == 0 then err invalid_input else (do
      effective_quote ← effective_quote_for quote_in lp_fee_bps protocol_fee_bps creator_fee_bps
      buy_on_curve quote_in base_reserve quote_reserve virtual_quote_reserves effective_quote)

unfoldable pub pump_sell_base_in : ℕ → ℕ → ℕ → ℕ → ℕ → ℕ → ℕ → Result QuoteError QuoteResult
pump_sell_base_in base_in base_reserve quote_reserve virtual_quote_reserves lp_fee_bps
      protocol_fee_bps creator_fee_bps =
    if base_in == 0 || base_reserve == 0 || quote_reserve == 0 then err invalid_input else (do
      effective_quote_reserve ←
          ok_or (checked_add_u128 quote_reserve virtual_quote_reserves) math_overflow
      product ← ok_or (checked_mul_u128 effective_quote_reserve base_in) math_overflow
      divisor ← ok_or (checked_add_u128 base_reserve base_in) math_overflow
      let raw_quote = product / divisor
      lp_fee ← fee_for raw_quote lp_fee_bps
      protocol_fee ← fee_for raw_quote protocol_fee_bps
      fee ←
          ok_or
            (and_then_add (checked_add_u128 lp_fee protocol_fee)
              (fee_for raw_quote creator_fee_bps))
            math_overflow
      amount_out ← ok_or (checked_sub raw_quote fee) math_overflow
      after_lp_fee ← ok_or (checked_sub raw_quote lp_fee) math_overflow
      if ltb quote_reserve after_lp_fee then err insufficient_liquidity else (do
        out ← to_u64 amount_out
        charged ← to_u64 fee
        ok (record { amount_in = base_in; amount_out = out; fee = charged })))
