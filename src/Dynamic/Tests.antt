-- ===== src/Dynamic/Tests.antt =====
-- A curve built from one bin array, and the choice among amounts on it.
mod Searches
use sol_arb_executor.Prelude.{
  ℕ, min, ◌*◌, ◌≡◌, inl, inr, refl, arith, true, false, Option, List, [], ◌∷◌, ◌++◌, none, some,
  replicate, find?, leb, ◌==◌, if◌then◌else◌,
}
use sol_arb_executor.Prelude.Int.{pos, ◌*ℤ◌, ◌-ℤ◌}
use sol_arb_executor.Errors.{Result, QuoteError, ok, err, ◌>>=◌, ok_or, insufficient_liquidity}
use sol_arb_executor.Word.{checked_sub, checked_add_u64, checked_add_u128, checked_mul_u128}
use sol_arb_executor.Quote.Basic.{ceil_div, to_u64}
use sol_arb_executor.Quote.Pump.{
  pump_buy_exact_quote_in, and_then_add, fee_for, sum_bps, effective_quote_for, buy_on_curve,
}
use sol_arb_executor.Quote.Dlmm.{
  dlmm_total_fee_rate, variable_fee, dlmm_quote_exact_in_partial, dlmm_quote_exact_in_impl,
  dlmm_bin_quote_capacity, quote_bins, quote_bin, fill_bin, charge_bin, add_totals, bin_max_out,
  amount_in_for_out, amount_out_for_in, excluded_fee_amount, included_fee_amount,
}
use sol_arb_executor.Accounts.Types.{AccountInfo, LbPairState}
use sol_arb_executor.Accounts.Bytes.{
  bytes, from_le, signed, read_unsigned, read_u64, read_u128, read_i64, read_byte,
}
use sol_arb_executor.Accounts.Bins.{
  parse_bin, parse_bin_array_index, bin_array_index, offset_in_array, bin_offset, parse_bin_for_id,
  in_default_range, default_bit, default_bitmap_contains,
}
use sol_arb_executor.Accounts.Volatility.{
  saturating_sub_i64, update_reference, abs_diff, update_volatility_accumulator,
  dlmm_fee_parameters, fee_on_input, supports_limit_orders,
}
use sol_arb_executor.Dynamic.Types.{
  DirectionChoice, DlmmSegment, DlmmCurve, CurveQuote, input_limit_reached, MarketState,
  DirectionSearch, CandidateEvaluationContext,
}
use sol_arb_executor.Dynamic.Curve.{new_curve, clear, push, quote, quote_on_segment}
use sol_arb_executor.Dynamic.Curve.Chain.{Chain, done, link}
use sol_arb_executor.Dynamic.Curve.Lookup.{quote-eq-scan}
use sol_arb_executor.Dynamic.Evaluate.{evaluate_candidates, incomplete_direction}
use sol_arb_executor.Dynamic.Evaluate.Best.{
  AtLeast, HonestBest, evaluate_candidates-HonestBest, evaluate_candidates-AtLeast,
}
use sol_arb_executor.Dynamic.Decide.{probe_minimum, decide_dynamic_search}
use sol_arb_executor.Dynamic.Decide.Choice.{
  Decides, HonestProbe, decide_dynamic_search-Decides, probe_minimum-HonestProbe,
}
use sol_arb_executor.Dynamic.Forward.{
  evaluate_forward, pump_buy_amount_out, largest_forward_complete_amount,
}
use sol_arb_executor.Dynamic.Forward.Bought.{IsMarket}
use sol_arb_executor.Dynamic.Forward.Largest.{IsLargest, largest_forward_complete_amount-IsLargest}
use sol_arb_executor.Dynamic.Boundary.{
  pump_input_at_or_below_target_out, boundary_gross, div_ceil, pump_total_fee_bps,
}
use sol_arb_executor.Dynamic.Boundary.Below.{IsNearest, pump_input_at_or_below_target_out-IsNearest}
use sol_arb_executor.Dynamic.Build.{
  build_curve, walk, walk_round, visit_array, visit_bin, on_capacity, add_segment, usable_bin,
  note_array, find_array, array_initialized, next_bin, final_reason,
}
use sol_arb_executor.Dynamic.Build.Joined.{Built, build_curve-Built}
use sol_arb_executor.Dynamic.Forward.{evaluate_forward, evaluate_reverse}
use sol_arb_executor.Dynamic.Curve.{largest_complete_input}
use sol_arb_executor.Dynamic.Search.{search_forward, search_reverse}
use sol_arb_executor.Dynamic.Search.Chosen.{
  BestIsWorth, search_forward-BestIsWorth, search_reverse-BestIsWorth,
}
use sol_arb_executor.Dynamic.Normalized.{integer_sqrt}
use sol_arb_executor.Dynamic.Normalized.Root.{HasRoot, integer_sqrt-IsRoot}

-- The data of a bin array of index 0 whose first bin has the price one and 2000 units of Y.
abbrev array_bytes : List ℕ
array_bytes =
    replicate 64 0
    ++ (208 ∷ 7 ∷ replicate 6 0)
    ++ (replicate 8 0 ++ 1 ∷ replicate 7 0)
    ++ replicate 112 0

abbrev array : AccountInfo
array = record {
  key = [];
  owner = [];
  is_signer = false;
  is_writable = true;
  executable = false;
  data_bytes = array_bytes;
}

abbrev pub pair : LbPairState
pair = record {
  static_parameters = record {
    base_factor = 10_000;
    filter_period = 30;
    decay_period = 600;
    reduction_factor = 5_000;
    variable_fee_control = 0;
    max_volatility_accumulator = 350_000;
    protocol_share = 0;
    base_fee_power_factor = 0;
    function_type = 1;
    collect_fee_mode = 0;
  };
  variable_parameters = record {
    volatility_accumulator = 0;
    volatility_reference = 0;
    index_reference = pos 0;
    last_update_timestamp = pos 0;
  };
  active_id = pos 0;
  bin_step = 10;
  bitmap = replicate 8 0 ++ 1 ∷ replicate 7 0;
  rewards_are_empty = true;
}

abbrev segment : DlmmSegment
segment = record {
  input_start = 0;
  input_end = 2003;
  output_start = 0;
  output_end = 2000;
  price_q64 = 18446744073709551616;
  fee_rate = 1_000_000;
  swap_for_y = true;
  fee_on_input = true;
  used_indices = pos 0 ∷ [];
}

abbrev pub curve : DlmmCurve
curve = record { segments = segment ∷ []; visited_bins = 1; stop_reason = input_limit_reached }

built : build_curve new_curve pair (array ∷ []) none true (pos 100) 1500 ≡ ok curve
unfolding build_curve walk walk_round visit_array visit_bin on_capacity add_segment usable_bin
    note_array find_array array_initialized next_bin final_reason clear push find? parse_bin
    parse_bin_array_index bin_array_index offset_in_array bin_offset parse_bin_for_id
    in_default_range default_bit default_bitmap_contains bytes from_le signed read_unsigned read_u64
    read_u128 read_i64 read_byte saturating_sub_i64 update_reference abs_diff
    update_volatility_accumulator dlmm_fee_parameters fee_on_input supports_limit_orders
    dlmm_total_fee_rate variable_fee dlmm_quote_exact_in_partial dlmm_quote_exact_in_impl
    dlmm_bin_quote_capacity quote_bins quote_bin fill_bin charge_bin add_totals bin_max_out
    amount_in_for_out amount_out_for_in excluded_fee_amount included_fee_amount ceil_div to_u64
    checked_sub checked_add_u64 checked_add_u128 checked_mul_u128 ◌*ℤ◌ ◌-ℤ◌
built = refl

build_curve-Built_example : Built 1500 curve
build_curve-Built_example =
    build_curve-Built new_curve pair (array ∷ []) none true (pos 100) 1500 built

joined : Chain 0 0 (segment ∷ [])
joined = link refl refl (omega arith) (omega arith) done

quote-eq-scan_example : quote curve 1000 ≡ (
    ok_or (find? (λ s. leb 1000 s.input_end) (segment ∷ [])) insufficient_liquidity
    >>= quote_on_segment 1000)
quote-eq-scan_example = quote-eq-scan curve 1000 joined

abbrev context : CandidateEvaluationContext
context = record {
  min_amount = 1;
  min_profit = 1;
  largest_complete_amount = 10;
  visited_bins = 1;
  boundary_candidates = 0;
  interior_candidates = 0;
  curve_stop_reason = input_limit_reached;
}

-- A quote of twice the amount, none for the amount 9.
abbrev doubling : ℕ → Result QuoteError CurveQuote
doubling amount =
    if amount == 9
    then err insufficient_liquidity
    else ok (record { amount_out = amount * 2; used_indices = [] })

abbrev amounts : List ℕ
amounts = 3 ∷ 9 ∷ 7 ∷ 12 ∷ []

evaluate_candidates-HonestBest_example :
    HonestBest context doubling amounts (evaluate_candidates amounts context doubling).best
evaluate_candidates-HonestBest_example = evaluate_candidates-HonestBest amounts context doubling

evaluate_candidates-AtLeast_example :
    AtLeast (evaluate_candidates amounts context doubling).best 7 7
evaluate_candidates-AtLeast_example =
    evaluate_candidates-AtLeast amounts context doubling 7 (inr (inr (inl refl))) (omega arith)
      (omega arith) refl (omega arith)

abbrev probed : DirectionSearch
probed =
    probe_minimum curve (record { min_amount = 1; max_amount = 9; min_profit = 1 }) 2003
      (doubling 1)

probe_minimum-HonestProbe_example :
    HonestProbe (record { min_amount = 1; max_amount = 9; min_profit = 1 }) 2003 probed.best
probe_minimum-HonestProbe_example =
    probe_minimum-HonestProbe curve (record { min_amount = 1; max_amount = 9; min_profit = 1 }) 2003
      (doubling 1) (omega arith)

decide_dynamic_search-Decides_example :
    Decides probed
      (incomplete_direction curve 0)
      (decide_dynamic_search probed (incomplete_direction curve 0))
decide_dynamic_search-Decides_example =
    decide_dynamic_search-Decides probed (incomplete_direction curve 0)

integer_sqrt-IsRoot_example : HasRoot 1_000_000_000_000 (integer_sqrt 1_000_000_000_000)
integer_sqrt-IsRoot_example = integer_sqrt-IsRoot 1_000_000_000_000 (omega arith)
