-- ===== src/Quote/Tests.antt =====
-- Concrete quotes, at which the theorems of Quote apply.
use sol_arb_executor.Prelude.{
  ℕ, ◌+◌, ◌-◌, ◌*◌, ◌≤◌, ◌<◌, ◌≡◌, refl, arith, true, false, [], ◌∷◌, ◌↔◌,
}
use sol_arb_executor.Errors.{ok}
use sol_arb_executor.Word.{checked_sub, checked_add_u64, checked_add_u128, checked_mul_u128}
use sol_arb_executor.Quote.Types.{Bin, DlmmFeeParameters, QuoteResult}
use sol_arb_executor.Quote.Basic.{ceil_div, to_u64}
use sol_arb_executor.Quote.Pump.{
  pump_buy_exact_quote_in, pump_sell_base_in, and_then_add, fee_for, sum_bps, effective_quote_for,
  buy_on_curve,
}
use sol_arb_executor.Quote.Pump.Curve.{curve_out}
use sol_arb_executor.Quote.Pump.Fees.{fee_quot}
use sol_arb_executor.Quote.Pump.Buy.{AreRates, AreReserves, buy_quote, pump_buy_exact_quote_in-eq}
use sol_arb_executor.Quote.Pump.Bounds.{
  pump_buy_exact_quote_in_bounds, pump_buy_exact_quote_in_mono, pump_buy_exact_quote_in_drop,
}
use sol_arb_executor.Quote.Pump.Sell.{fees_of, pump_sell_base_in-eq-ok, pump_sell_base_in-succeeds}
use sol_arb_executor.Quote.Dlmm.{
  dlmm_total_fee_rate, variable_fee, dlmm_quote_exact_in, dlmm_quote_exact_in_partial,
  dlmm_quote_exact_in_impl, dlmm_bin_quote_capacity, quote_bins, quote_bin, fill_bin, charge_bin,
  add_totals, bin_max_out, amount_in_for_out, amount_out_for_in, excluded_fee_amount,
  included_fee_amount, dlmm_bin_output_within_capacity,
}
use sol_arb_executor.Quote.Dlmm.Fees.{excluded_fee_amount-included_fee_amount}
use sol_arb_executor.Quote.Dlmm.Loop.{
  dlmm_quote_exact_in_bounds, dlmm_quote_exact_in_partial_bounds,
}
use sol_arb_executor.Quote.Dlmm.Within.{dlmm_bin_output_within_capacity-eq-partial}

-- A pool with rates of 20, 5 and 5 basis points.
rates : AreRates 20 5 5
rates = record { lp_small = omega arith; protocol_small = omega arith; creator_small = omega arith }

reserves : AreReserves 1_000_000_000_000 1_000_000 0
reserves = record {
  base_small = omega arith;
  quote_small = omega arith;
  virtual_small = omega arith;
  base_pos = omega arith;
  quote_pos = omega arith;
}

abbrev bought : QuoteResult
bought = record { amount_in = 10_030; amount_out = 9_900_009_801; fee = 30 }

buys : pump_buy_exact_quote_in 10_030 1_000_000_000_000 1_000_000 0 20 5 5 ≡ ok bought
unfolding pump_buy_exact_quote_in effective_quote_for sum_bps fee_for and_then_add buy_on_curve
    ceil_div to_u64 checked_add_u128 checked_mul_u128 checked_sub
buys = refl

abbrev sold : QuoteResult
sold = record { amount_in = 1_000_000; amount_out = 995; fee = 4 }

sells : pump_sell_base_in 1_000_000 1_000_000_000_000 1_000_000_000 0 20 5 5 ≡ ok sold
unfolding pump_sell_base_in fee_for and_then_add ceil_div to_u64 checked_add_u128 checked_mul_u128
    checked_sub
sells = refl

abbrev bin : Bin
bin = record {
  price_q64 = 18446744073709551616;
  amount_x = 1000;
  amount_y = 2000;
  open_order_amount = 0;
  processed_order_remaining_amount = 0;
  limit_order_ask_side = false;
}

abbrev fees : DlmmFeeParameters
fees = record {
  bin_step = 10;
  base_factor = 10_000;
  base_fee_power_factor = 0;
  variable_fee_control = 0;
  volatility_accumulator = 0;
}

abbrev capacity : QuoteResult
capacity = record { amount_in = 2003; amount_out = 2000; fee = 3 }

priced : dlmm_total_fee_rate fees ≡ ok 1_000_000
unfolding dlmm_total_fee_rate variable_fee checked_add_u128 checked_mul_u128
priced = refl

measured : dlmm_bin_quote_capacity bin true true fees ≡ ok capacity
unfolding dlmm_bin_quote_capacity dlmm_quote_exact_in_partial dlmm_quote_exact_in_impl quote_bins
    quote_bin fill_bin charge_bin add_totals bin_max_out amount_in_for_out amount_out_for_in
    excluded_fee_amount included_fee_amount dlmm_total_fee_rate variable_fee ceil_div to_u64
    checked_add_u64 checked_add_u128 checked_mul_u128 checked_sub
measured = refl

buys_more :
    pump_buy_exact_quote_in 10_033 1_000_000_000_000 1_000_000 0 20 5 5
    ≡ ok (buy_quote 10_033 1_000_000_000_000 1_000_000 0 20 5 5)
unfolding pump_buy_exact_quote_in effective_quote_for sum_bps fee_for and_then_add buy_on_curve
    ceil_div to_u64 checked_add_u128 checked_mul_u128 checked_sub
buys_more = refl

pump_buy_exact_quote_in-eq_example :
    pump_buy_exact_quote_in 10_033 1_000_000_000_000 1_000_000 0 20 5 5
    ≡ ok (buy_quote 10_033 1_000_000_000_000 1_000_000 0 20 5 5)
pump_buy_exact_quote_in-eq_example =
    pump_buy_exact_quote_in-eq 10_033 1_000_000_000_000 1_000_000 0 20 5 5 (omega arith) rates
      reserves (omega arith)

pump_buy_exact_quote_in_bounds_example :
    (bought.amount_in ≡ 10_030)
    × (30 < 10_030)
    × (9_900_009_801 < 1_000_000_000_000)
    × (1_000_000_000_000 * (1_000_000 + 0)
        ≤ (1_000_000_000_000 - 9_900_009_801) * (1_000_000 + 0 + (10_030 - 30 - 1)))
pump_buy_exact_quote_in_bounds_example =
    pump_buy_exact_quote_in_bounds 10_030 1_000_000_000_000 1_000_000 0 20 5 5 (omega arith) rates
      reserves buys

pump_buy_exact_quote_in_mono_example :
    bought.amount_out ≤ (buy_quote 10_033 1_000_000_000_000 1_000_000 0 20 5 5).amount_out
pump_buy_exact_quote_in_mono_example =
    pump_buy_exact_quote_in_mono 10_030 10_033 1_000_000_000_000 1_000_000 0 20 5 5 (omega arith)
      rates reserves (omega arith) buys buys_more

pump_buy_exact_quote_in_drop_example :
    (y z : QuoteResult) × (pump_buy_exact_quote_in 10_030 1_000_000_000_000 1_000_000 0 20 5 5
      ≡ ok y)
    × (pump_buy_exact_quote_in 10_032 1_000_000_000_000 1_000_000 0 20 5 5 ≡ ok z)
    × (z.amount_out < y.amount_out)
pump_buy_exact_quote_in_drop_example =
    pump_buy_exact_quote_in_drop 1 1_000_000_000_000 1_000_000 0 (omega arith) (omega arith)
      reserves (omega arith)

sell_reserves : AreReserves 1_000_000_000_000 1_000_000_000 0
sell_reserves = record {
  base_small = omega arith;
  quote_small = omega arith;
  virtual_small = omega arith;
  base_pos = omega arith;
  quote_pos = omega arith;
}

pump_sell_base_in-eq-ok_example :
    (sold.amount_in ≡ 1_000_000)
    × (sold.fee ≡ fees_of (curve_out 1_000_000_000 1_000_000_000_000 1_000_000) 20 5 5)
    × (sold.amount_out + sold.fee ≡ curve_out 1_000_000_000 1_000_000_000_000 1_000_000)
    × (sold.amount_out + sold.fee
        ≤ 1_000_000_000 + fee_quot (curve_out 1_000_000_000 1_000_000_000_000 1_000_000) 20)
pump_sell_base_in-eq-ok_example =
    pump_sell_base_in-eq-ok 1_000_000 1_000_000_000_000 1_000_000_000 0 20 5 5 (omega arith)
      (omega arith) rates sell_reserves (omega arith) sells

pump_sell_base_in-succeeds_example :
    ((z : QuoteResult) × (pump_sell_base_in 1_000_000 1_000_000_000_000 1_000_000_000 0 20 5 5
        ≡ ok z))
    ↔ (fees_of (curve_out (1_000_000_000 + 0) 1_000_000_000_000 1_000_000) 20 5 5
        ≤ curve_out (1_000_000_000 + 0) 1_000_000_000_000 1_000_000)
      × (curve_out (1_000_000_000 + 0) 1_000_000_000_000 1_000_000
          ≤ 1_000_000_000 + fee_quot (curve_out (1_000_000_000 + 0) 1_000_000_000_000 1_000_000) 20)
pump_sell_base_in-succeeds_example =
    pump_sell_base_in-succeeds 1_000_000 1_000_000_000_000 1_000_000_000 0 20 5 5 (omega arith)
      (omega arith) rates sell_reserves (omega arith)

excluded_fee_amount-included_fee_amount_example :
    (g : ℕ) × (fee : ℕ) × (included_fee_amount 2000 1_000_000 ≡ ok (g, fee))
    × (excluded_fee_amount g 1_000_000 ≡ ok (2000, fee))
excluded_fee_amount-included_fee_amount_example =
    excluded_fee_amount-included_fee_amount 1_000_000 (omega arith) 2000 (omega arith)

abbrev both : QuoteResult
both = record { amount_in = 2500; amount_out = 2496; fee = 4 }

two_bins : dlmm_quote_exact_in 2500 (bin ∷ bin ∷ []) true true fees ≡ ok both
unfolding dlmm_quote_exact_in dlmm_quote_exact_in_impl quote_bins quote_bin fill_bin charge_bin
    add_totals bin_max_out amount_in_for_out amount_out_for_in excluded_fee_amount
    included_fee_amount dlmm_total_fee_rate variable_fee ceil_div to_u64 checked_add_u64
    checked_add_u128 checked_mul_u128 checked_sub
two_bins = refl

one_bin : dlmm_quote_exact_in_partial 2500 (bin ∷ []) true true fees ≡ ok capacity
unfolding dlmm_quote_exact_in_partial dlmm_quote_exact_in_impl quote_bins quote_bin fill_bin
    charge_bin add_totals bin_max_out amount_in_for_out amount_out_for_in excluded_fee_amount
    included_fee_amount dlmm_total_fee_rate variable_fee ceil_div to_u64 checked_add_u64
    checked_add_u128 checked_mul_u128 checked_sub
one_bin = refl

dlmm_quote_exact_in_bounds_example : (both.amount_in ≡ 2500) × (both.amount_out ≤ 4000)
dlmm_quote_exact_in_bounds_example =
    dlmm_quote_exact_in_bounds 2500 (bin ∷ bin ∷ []) true true fees (omega arith) two_bins

dlmm_quote_exact_in_partial_bounds_example : (2003 ≤ 2500) × (2000 ≤ 2000)
dlmm_quote_exact_in_partial_bounds_example =
    dlmm_quote_exact_in_partial_bounds 2500 (bin ∷ []) true true fees (omega arith) one_bin

dlmm_bin_output_within_capacity-eq-partial_example :
    (z : QuoteResult) × (dlmm_quote_exact_in_partial 1000 (bin ∷ []) true true fees ≡ ok z)
    × (z.amount_in ≡ 1000)
    × (dlmm_bin_output_within_capacity 1000 2003 2000 18446744073709551616 true true 1_000_000
        ≡ ok z.amount_out)
dlmm_bin_output_within_capacity-eq-partial_example =
    dlmm_bin_output_within_capacity-eq-partial bin true true fees 1000 priced measured (omega arith)
      (omega arith) (omega arith)
