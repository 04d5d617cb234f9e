-- ===== src/Dynamic/Forward.antt =====
-- The evaluation of an amount in each direction, and the largest amount of the forward direction,
-- of dynamic_amount.rs.
pub mod Bought
pub mod Largest
use sol_arb_executor.Prelude.{
  ℕ, zero, suc, ◌+◌, ◌-◌, ◌/◌, ◌||◌, Bool, true, false, Option, none, some, ltb, leb, ◌==◌,
  if◌then◌else◌,
}
use sol_arb_executor.Errors.{QuoteError, Result, ok, err, ◌>>=◌, to_option}
use sol_arb_executor.Word.{
  u64_size, u128_size, fits, checked_sub, checked_add_u64, checked_add_u128, checked_mul_u128,
}
use sol_arb_executor.Quote.Types.{QuoteResult}
use sol_arb_executor.Quote.Pump.{pump_buy_exact_quote_in, pump_sell_base_in}
use sol_arb_executor.Dynamic.Types.{DlmmCurve, CurveQuote, MarketState}
use sol_arb_executor.Dynamic.Curve.{quote, largest_complete_input}

-- The two Pump quotes at the reserves and fees of the market.
abbrev pub market_buy : MarketState → ℕ → Result QuoteError QuoteResult
market_buy market amount_in =
    pump_buy_exact_quote_in amount_in market.pump_base_reserve market.pump_quote_reserve
      market.pump_virtual_quote_reserve market.pump_fees.lp_fee_bps
      market.pump_fees.protocol_fee_bps market.pump_fees.creator_fee_bps

abbrev pub market_sell : MarketState → ℕ → Result QuoteError QuoteResult
market_sell market amount_in =
    pump_sell_base_in amount_in market.pump_base_reserve market.pump_quote_reserve
      market.pump_virtual_quote_reserve market.pump_fees.lp_fee_bps
      market.pump_fees.protocol_fee_bps market.pump_fees.creator_fee_bps

unfoldable pub evaluate_forward : MarketState → DlmmCurve → ℕ → Result QuoteError CurveQuote
evaluate_forward market curve amount_in = do
  buy ← market_buy market amount_in
  quote curve buy.amount_out

unfoldable pub evaluate_reverse : MarketState → DlmmCurve → ℕ → Result QuoteError CurveQuote
evaluate_reverse market curve amount_in = do
  dlmm ← quote curve amount_in
  sell ← market_sell market dlmm.amount_out
  ok (record { amount_out = sell.amount_out; used_indices = dlmm.used_indices })

unfoldable pub pump_buy_amount_out : MarketState → ℕ → Option ℕ
pump_buy_amount_out market amount_in = elim (market_buy market amount_in) [
  | err _ ↦ none
  | ok quoted ↦ some quoted.amount_out
]

abbrev pub is_ok : {E A : Type 0} → Result E A → Bool
is_ok (ok a) = true
is_ok (err e) = false

-- `.is_some_and(|output| output <= capacity)`.
unfoldable pub within_capacity : MarketState → ℕ → ℕ → Bool
within_capacity market capacity amount = elim (pump_buy_amount_out market amount) [
  | none ↦ false
  | some output ↦ leb output capacity
]

-- What the loop leaves in `lower`, and whether it has ended by its condition: not where the fuel
-- runs out.
pub record Narrowed : Type 0 where
  pub lower : ℕ
  pub ended : Bool

-- The `while lower < upper`, on fuel, for the test of a midpoint. A round halves the range.
unfoldable pub narrow : ℕ → (ℕ → Bool) → ℕ → ℕ → Narrowed
narrow zero test lower upper = record { lower = lower; ended = false }
narrow (suc fuel) test lower upper =
    let midpoint = lower + (upper - lower + 1) / 2 in
    let right = narrow fuel test midpoint upper in
    let left = narrow fuel test lower (midpoint - 1) in
    if ltb lower upper
    then (if test midpoint then right else left)
    else record { lower = lower; ended = true }

-- The fuel is the width of a u64, and one for the test that ends the loop.
unfoldable pub largest_forward_complete_amount : MarketState → DlmmCurve → ℕ → ℕ
largest_forward_complete_amount market curve max_amount =
    let capacity = largest_complete_input curve in
    if is_ok (evaluate_forward market curve max_amount)
    then max_amount
    else (if capacity == 0 || max_amount == 0
        then 0
        else (narrow 65 (within_capacity market capacity) 0 max_amount).lower)
