-- ===== src/Dynamic/Boundary.antt =====
-- `pump_input_at_or_below_target_out` of dynamic_amount.rs: a Pump input just below a DLMM boundary.
pub mod Below
use sol_arb_executor.Prelude.{
  ℕ, ◌-◌, ◌/◌, ◌||◌, Bool, true, false, Option, none, some, ltb, leb, ◌==◌, if◌then◌else◌,
}
use sol_arb_executor.Word.{
  u64_size, fits, checked_sub, checked_add_u64, checked_add_u128, checked_mul_u128,
}
use sol_arb_executor.Dynamic.Types.{MarketState}
use sol_arb_executor.Dynamic.Forward.{pump_buy_amount_out}
use sol_arb_executor.Dynamic.Normalized.{◌>>=◌}

abbrev pub pump_fee_denominator : ℕ
pump_fee_denominator = 10_000

unfoldable pub pump_total_fee_bps : MarketState → Option ℕ
pump_total_fee_bps market = do
  partial ← checked_add_u64 market.pump_fees.lp_fee_bps market.pump_fees.protocol_fee_bps
  checked_add_u64 partial market.pump_fees.creator_fee_bps

unfoldable pub div_ceil : ℕ → ℕ → Option ℕ
div_ceil numerator denominator = if denominator == 0 then none else (do
  less ← checked_sub denominator 1
  sum ← checked_add_u128 numerator less
  some (sum / denominator))

-- `gross` of the next function.
unfoldable pub boundary_gross : MarketState → ℕ → Option ℕ
boundary_gross market target_out = do
  effective_quote_reserve ←
      checked_add_u128 market.pump_quote_reserve market.pump_virtual_quote_reserve
  product ← checked_mul_u128 target_out effective_quote_reserve
  left_over ← checked_sub market.pump_base_reserve target_out
  boundary_curve_input ← div_ceil product left_over
  total_fee_bps ← pump_total_fee_bps market
  factor ← checked_add_u128 pump_fee_denominator total_fee_bps
  scaled ← checked_mul_u128 boundary_curve_input factor
  fits u64_size (scaled / pump_fee_denominator)

unfoldable pub pump_input_at_or_below_target_out : MarketState → ℕ → Option ℕ
pump_input_at_or_below_target_out market target_out =
    if target_out == 0 || leb market.pump_base_reserve target_out then none else (do
      candidate ← boundary_gross market target_out
      if candidate == 0 then none else elim (pump_buy_amount_out market candidate) [
        | none ↦ none
        | some output ↦ if ltb output target_out then some candidate else none
      ])
