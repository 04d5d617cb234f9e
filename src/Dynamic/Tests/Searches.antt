-- ===== src/Dynamic/Tests/Searches.antt =====
-- The searches of both directions and the bounds that they use, on markets with a profit.
use sol_arb_executor.Prelude.{◌≡◌, refl, arith, [], ◌∷◌, true, some}
use sol_arb_executor.Prelude.Int.{pos}
use sol_arb_executor.Dynamic.Types.{DirectionChoice, MarketState}
use sol_arb_executor.Dynamic.Search.{
  forward_interior_candidate, reverse_interior_candidate, gather_boundary, gather_interior,
  forward_start, gather_forward_at, gather_forward, search_forward, gather_reverse_at,
  gather_reverse, search_reverse,
}
use sol_arb_executor.Dynamic.Candidates.{contains, push_unique, push_between, push_neighborhood}
use sol_arb_executor.Dynamic.Evaluate.{
  better_choice, keep_better, consider, tally_one, tally_all, evaluate_candidates,
  incomplete_direction,
}
use sol_arb_executor.Dynamic.Forward.{
  evaluate_forward, evaluate_reverse, pump_buy_amount_out, within_capacity, narrow,
  largest_forward_complete_amount,
}
use sol_arb_executor.Dynamic.Boundary.{
  pump_total_fee_bps, div_ceil, boundary_gross, pump_input_at_or_below_target_out,
}
use sol_arb_executor.Dynamic.Normalized.{
  bit_length, from_u128, multiply, divide, not_greater, not_less, newton, integer_sqrt, is_odd,
  half, shifted, sqrt_floor, multiply_all, divide_all, normalized_product_ratio, normalized_square,
  sqrt_interval_definitely_excludes,
}
use sol_arb_executor.Dynamic.Curve.{
  clear, push, largest_complete_input, bisect, quote_on_segment, quote,
}
use sol_arb_executor.Dynamic.Types.{input_capacity, output_capacity}
use sol_arb_executor.Quote.Pump.{
  and_then_add, fee_for, sum_bps, effective_quote_for, buy_on_curve, pump_buy_exact_quote_in,
  pump_sell_base_in,
}
use sol_arb_executor.Quote.Dlmm.{
  variable_fee, dlmm_total_fee_rate, excluded_fee_amount, included_fee_amount, amount_in_for_out,
  amount_out_for_in, bin_max_out, charge_bin, add_totals, fill_bin, quote_bin, quote_bins,
  dlmm_quote_exact_in_impl, dlmm_quote_exact_in, dlmm_quote_exact_in_partial,
  dlmm_bin_quote_capacity, dlmm_bin_output_within_capacity,
}
use sol_arb_executor.Quote.Basic.{ceil_div, to_u64}
use sol_arb_executor.Word.{
  checked_sub, checked_add_u64, checked_add_u128, checked_mul_u128, saturating_add_u64,
}
use sol_arb_executor.Prelude.Int.{◌+ℤ◌, ◌-ℤ◌, ◌*ℤ◌}
use sol_arb_executor.Dynamic.Forward.Bought.{IsMarket}
use sol_arb_executor.Dynamic.Forward.Largest.{IsLargest, largest_forward_complete_amount-IsLargest}
use sol_arb_executor.Dynamic.Boundary.Below.{IsNearest, pump_input_at_or_below_target_out-IsNearest}
use sol_arb_executor.Dynamic.Search.Chosen.{
  IsWorth, BeatsEndpoints, search_forward-BestIsWorth, search_reverse-BestIsWorth,
}
use sol_arb_executor.Dynamic.Tests.{pair, curve}

abbrev market : MarketState
market = record {
  pump_base_reserve = 1_000_000_000;
  pump_quote_reserve = 1_000_000_000;
  pump_virtual_quote_reserve = 0;
  pump_fees = record { lp_fee_bps = 20; protocol_fee_bps = 5; creator_fee_bps = 5 };
  pair = pair;
  target_is_x = true;
}

valid : IsMarket market
valid = record {
  rates = record {
    lp_small = omega arith;
    protocol_small = omega arith;
    creator_small = omega arith;
  };
  reserves = record {
    base_small = omega arith;
    quote_small = omega arith;
    virtual_small = omega arith;
    base_pos = omega arith;
    quote_pos = omega arith;
  };
}

-- The maximum is above the curve, so the loop runs.
largest : largest_forward_complete_amount market curve 5000 ≡ 2014
unfolding forward_interior_candidate reverse_interior_candidate gather_boundary gather_interior
    forward_start gather_forward_at gather_forward search_forward gather_reverse_at gather_reverse
    search_reverse contains push_unique push_between push_neighborhood better_choice keep_better
    consider tally_one tally_all evaluate_candidates incomplete_direction evaluate_forward
    evaluate_reverse pump_buy_amount_out within_capacity narrow largest_forward_complete_amount
    pump_total_fee_bps div_ceil boundary_gross pump_input_at_or_below_target_out bit_length
    from_u128 multiply divide not_greater not_less newton integer_sqrt is_odd half shifted
    sqrt_floor multiply_all divide_all normalized_product_ratio normalized_square
    sqrt_interval_definitely_excludes clear push largest_complete_input bisect quote_on_segment
    quote input_capacity output_capacity and_then_add fee_for sum_bps effective_quote_for
    buy_on_curve pump_buy_exact_quote_in pump_sell_base_in variable_fee dlmm_total_fee_rate
    excluded_fee_amount included_fee_amount amount_in_for_out amount_out_for_in bin_max_out
    charge_bin add_totals fill_bin quote_bin quote_bins dlmm_quote_exact_in_impl dlmm_quote_exact_in
    dlmm_quote_exact_in_partial dlmm_bin_quote_capacity dlmm_bin_output_within_capacity ceil_div
    to_u64 checked_sub checked_add_u64 checked_add_u128 checked_mul_u128 saturating_add_u64 ◌+ℤ◌
    ◌-ℤ◌ ◌*ℤ◌
largest = refl

largest_forward_complete_amount-IsLargest_example : IsLargest market curve 5000 2014
unfolding forward_interior_candidate reverse_interior_candidate gather_boundary gather_interior
    forward_start gather_forward_at gather_forward search_forward gather_reverse_at gather_reverse
    search_reverse contains push_unique push_between push_neighborhood better_choice keep_better
    consider tally_one tally_all evaluate_candidates incomplete_direction evaluate_forward
    evaluate_reverse pump_buy_amount_out within_capacity narrow largest_forward_complete_amount
    pump_total_fee_bps div_ceil boundary_gross pump_input_at_or_below_target_out bit_length
    from_u128 multiply divide not_greater not_less newton integer_sqrt is_odd half shifted
    sqrt_floor multiply_all divide_all normalized_product_ratio normalized_square
    sqrt_interval_definitely_excludes clear push largest_complete_input bisect quote_on_segment
    quote input_capacity output_capacity and_then_add fee_for sum_bps effective_quote_for
    buy_on_curve pump_buy_exact_quote_in pump_sell_base_in variable_fee dlmm_total_fee_rate
    excluded_fee_amount included_fee_amount amount_in_for_out amount_out_for_in bin_max_out
    charge_bin add_totals fill_bin quote_bin quote_bins dlmm_quote_exact_in_impl dlmm_quote_exact_in
    dlmm_quote_exact_in_partial dlmm_bin_quote_capacity dlmm_bin_output_within_capacity ceil_div
    to_u64 checked_sub checked_add_u64 checked_add_u128 checked_mul_u128 saturating_add_u64 ◌+ℤ◌
    ◌-ℤ◌ ◌*ℤ◌
largest_forward_complete_amount-IsLargest_example =
    largest_forward_complete_amount-IsLargest market curve 5000 valid (omega arith)

pump_input_at_or_below_target_out-IsNearest_example :
    (pump_input_at_or_below_target_out market 2003 ≡ some 2010) × IsNearest market 2003 2010
pump_input_at_or_below_target_out-IsNearest_example =
    pump_input_at_or_below_target_out-IsNearest market 2003 valid (omega arith) (omega arith)
      (omega arith) (omega arith) (omega arith)

-- Pump sells the target for half of what the curve pays for it.
abbrev cheap : MarketState
cheap = record market { pump_base_reserve = 2_000_000_000 }

abbrev forward_choice : DirectionChoice
forward_choice = record {
  amount_in = 1008;
  amount_out = 2000;
  profit = 992;
  used_indices = pos 0 ∷ [];
}

search_forward-BestIsWorth_example :
    IsWorth (evaluate_forward cheap curve) 1 5000 1 forward_choice
    × BeatsEndpoints (evaluate_forward cheap curve) 1 1008 1 (some forward_choice)
unfolding forward_interior_candidate reverse_interior_candidate gather_boundary gather_interior
    forward_start gather_forward_at gather_forward search_forward gather_reverse_at gather_reverse
    search_reverse contains push_unique push_between push_neighborhood better_choice keep_better
    consider tally_one tally_all evaluate_candidates incomplete_direction evaluate_forward
    evaluate_reverse pump_buy_amount_out within_capacity narrow largest_forward_complete_amount
    pump_total_fee_bps div_ceil boundary_gross pump_input_at_or_below_target_out bit_length
    from_u128 multiply divide not_greater not_less newton integer_sqrt is_odd half shifted
    sqrt_floor multiply_all divide_all normalized_product_ratio normalized_square
    sqrt_interval_definitely_excludes clear push largest_complete_input bisect quote_on_segment
    quote input_capacity output_capacity and_then_add fee_for sum_bps effective_quote_for
    buy_on_curve pump_buy_exact_quote_in pump_sell_base_in variable_fee dlmm_total_fee_rate
    excluded_fee_amount included_fee_amount amount_in_for_out amount_out_for_in bin_max_out
    charge_bin add_totals fill_bin quote_bin quote_bins dlmm_quote_exact_in_impl dlmm_quote_exact_in
    dlmm_quote_exact_in_partial dlmm_bin_quote_capacity dlmm_bin_output_within_capacity ceil_div
    to_u64 checked_sub checked_add_u64 checked_add_u128 checked_mul_u128 saturating_add_u64 ◌+ℤ◌
    ◌-ℤ◌ ◌*ℤ◌
search_forward-BestIsWorth_example = search_forward-BestIsWorth cheap curve 1 5000 1 (omega arith)

-- Pump pays twice what the curve charges for the target.
abbrev dear : MarketState
dear = record market { pump_quote_reserve = 2_000_000_000 }

abbrev reverse_choice : DirectionChoice
reverse_choice = record {
  amount_in = 2003;
  amount_out = 3987;
  profit = 1984;
  used_indices = pos 0 ∷ [];
}

search_reverse-BestIsWorth_example :
    IsWorth (evaluate_reverse dear curve) 1 2003 1 reverse_choice
    × BeatsEndpoints (evaluate_reverse dear curve) 1 2003 1 (some reverse_choice)
unfolding forward_interior_candidate reverse_interior_candidate gather_boundary gather_interior
    forward_start gather_forward_at gather_forward search_forward gather_reverse_at gather_reverse
    search_reverse contains push_unique push_between push_neighborhood better_choice keep_better
    consider tally_one tally_all evaluate_candidates incomplete_direction evaluate_forward
    evaluate_reverse pump_buy_amount_out within_capacity narrow largest_forward_complete_amount
    pump_total_fee_bps div_ceil boundary_gross pump_input_at_or_below_target_out bit_length
    from_u128 multiply divide not_greater not_less newton integer_sqrt is_odd half shifted
    sqrt_floor multiply_all divide_all normalized_product_ratio normalized_square
    sqrt_interval_definitely_excludes clear push largest_complete_input bisect quote_on_segment
    quote input_capacity output_capacity and_then_add fee_for sum_bps effective_quote_for
    buy_on_curve pump_buy_exact_quote_in pump_sell_base_in variable_fee dlmm_total_fee_rate
    excluded_fee_amount included_fee_amount amount_in_for_out amount_out_for_in bin_max_out
    charge_bin add_totals fill_bin quote_bin quote_bins dlmm_quote_exact_in_impl dlmm_quote_exact_in
    dlmm_quote_exact_in_partial dlmm_bin_quote_capacity dlmm_bin_output_within_capacity ceil_div
    to_u64 checked_sub checked_add_u64 checked_add_u128 checked_mul_u128 saturating_add_u64 ◌+ℤ◌
    ◌-ℤ◌ ◌*ℤ◌
search_reverse-BestIsWorth_example = search_reverse-BestIsWorth dear curve 1 5000 1
