-- ===== src/Handlers/Tests/Choices.antt =====
-- Selections for the accounts of the sample.
use sol_arb_executor.Accounts.Pump
use sol_arb_executor.Adapters.MeteoraDlmm
use sol_arb_executor.Adapters.PumpSwap
use sol_arb_executor.Validate.Layout
use sol_arb_executor.Accounts.Bins.{
  bin_array_index, bin_offset, default_bit, default_bitmap_contains, in_default_range,
  offset_in_array, parse_bin, parse_bin_array_index, parse_bin_for_id,
}
use sol_arb_executor.Accounts.Bytes.{
  bytes, from_le, read_byte, read_i32, read_i64, read_u128, read_u16, read_u32, read_u64,
  read_unsigned, signed, to_u16,
}
use sol_arb_executor.Accounts.Pair.{
  all_zero, parse_lb_pair, parse_static_parameters, parse_variable_parameters, parse_words,
}
use sol_arb_executor.Accounts.Pump.{
  fees_at, i128_to_u64, parse_fees, parse_pump_global_fees, read_fee, select_pump_fees_from_data,
  token_amount,
}
use sol_arb_executor.Accounts.Volatility.{
  abs_diff, dlmm_fee_parameters, fee_on_input, saturating_sub_i64, supports_limit_orders,
  update_reference, update_volatility_accumulator,
}
use sol_arb_executor.Adapters.Encode.{to_le}
use sol_arb_executor.Adapters.MeteoraDlmm.{
  optional_meta, swap2, swap2_data, swap2_infos, swap2_metas, validate_optional,
}
use sol_arb_executor.Adapters.PumpSwap.{cashback_sell_is_ready, validate_cashback, validate_pool_v2}
use sol_arb_executor.Adapters.PumpSwap.Invoke.{
  append_current_remaining_accounts, buy_data, buy_exact_quote_in, buy_metas, invoke, invoke_infos,
  remaining_metas, sell, sell_data, sell_metas,
}
use sol_arb_executor.Dynamic.Build.{
  add_segment, array_initialized, build_curve, final_reason, find_array, next_bin, note_array,
  on_capacity, usable_bin, visit_array, visit_bin, walk, walk_round,
}
use sol_arb_executor.Dynamic.Curve.{
  bisect, clear, largest_complete_input, push, quote, quote_on_segment,
}
use sol_arb_executor.Dynamic.Decide.{
  decide_choices, decide_dynamic_search, directions_to_expand, probe_minimum,
}
use sol_arb_executor.Dynamic.Evaluate.{better_choice, incomplete_direction}
use sol_arb_executor.Dynamic.Forward.{
  evaluate_forward, evaluate_reverse, largest_forward_complete_amount, narrow, pump_buy_amount_out,
  within_capacity,
}
use sol_arb_executor.Dynamic.Types.{
  DynamicSearchBounds, DynamicSelection, MarketState, input_capacity, output_capacity,
}
use sol_arb_executor.Errors.{ok}
use sol_arb_executor.Handlers.Context.{meteora_accounts, pump_accounts, target_is_x}
use sol_arb_executor.Handlers.Direction.{forward_quote, reverse_quote, select_direction, used_by}
use sol_arb_executor.Handlers.Direction.Quoted.{NeedsReady, select_direction-IsQuoted}
use sol_arb_executor.Handlers.Market.{bitmap_extension, parse_market, without_creator}
use sol_arb_executor.Handlers.Sample.{accounts, array_account, platform}
use sol_arb_executor.Handlers.Select.{
  curve_up_to, forward_source, probe_forward_direction, probe_reverse_direction, reverse_source,
  search_forward_direction, search_reverse_direction, select_dynamic, selection_of,
}
use sol_arb_executor.Handlers.Select.OnCurve.{OnCurve}
use sol_arb_executor.Handlers.Select.Worth.{select_dynamic-OnCurve, source_of}
use sol_arb_executor.Prelude.{[], arith, find?, refl, ◌+◌, ◌∷◌, ◌≡◌}
use sol_arb_executor.Prelude.Int.{pos, ◌*ℤ◌, ◌+ℤ◌, ◌-ℤ◌}
use sol_arb_executor.Quote.Basic.{ceil_div, to_u64}
use sol_arb_executor.Quote.Dlmm.{
  add_totals, amount_in_for_out, amount_out_for_in, bin_max_out, charge_bin,
  dlmm_bin_output_within_capacity, dlmm_bin_quote_capacity, dlmm_quote_exact_in_impl,
  dlmm_quote_exact_in_partial, dlmm_total_fee_rate, excluded_fee_amount, fill_bin,
  included_fee_amount, quote_bin, quote_bins, variable_fee,
}
use sol_arb_executor.Quote.Pump.{
  and_then_add, buy_on_curve, effective_quote_for, fee_for, pump_buy_exact_quote_in,
  pump_sell_base_in, sum_bps,
}
use sol_arb_executor.Route.Direction.{
  at_least, choose_direction, prefer, quote_dlmm_from_accounts, quote_round, quote_rounds, take_bin,
}
use sol_arb_executor.Validate.BinArrays.{
  array_index, differs_from, validate_bin_array, validate_bin_array_count, validate_bin_arrays,
  validate_each,
}
use sol_arb_executor.Validate.Layout.{
  cashback_flag, check_discriminator, parse_meteora_pair, read_pubkey, same_bytes, slice,
  validate_bin_array_data,
}
use sol_arb_executor.Word.{checked_add_u128, checked_add_u64, checked_mul_u128, checked_sub}
use sol_arb_executor.Prelude.{find?}
use sol_arb_executor.Dynamic.Types.{pump_to_meteora}
use sol_arb_executor.Handlers.Direction.Quoted.{IsQuoted}
use sol_arb_executor.Handlers.Select.Worth.{select_dynamic-OnCurve}
use sol_arb_executor.Handlers.Select.OnCurve.{OnCurve}

chosen :
    select_direction platform accounts (array_account 0 ∷ []) 1000 10 (pos 100)
    ≡ ok (pump_to_meteora, pos 0 ∷ [])
unfolding select_direction forward_quote reverse_quote used_by choose_direction at_least prefer
    parse_market Pump.parse_pump_pool i128_to_u64 token_amount parse_pump_global_fees fees_at
    read_fee to_u16 parse_fees select_pump_fees_from_data without_creator all_zero parse_lb_pair
    parse_static_parameters parse_variable_parameters parse_words bitmap_extension
    pump_buy_exact_quote_in and_then_add fee_for sum_bps effective_quote_for buy_on_curve
    pump_sell_base_in quote_dlmm_from_accounts quote_rounds quote_round take_bin build_curve walk
    walk_round visit_array visit_bin on_capacity add_segment usable_bin note_array find_array
    array_initialized next_bin final_reason clear push find? parse_bin parse_bin_array_index
    bin_array_index offset_in_array bin_offset parse_bin_for_id in_default_range default_bit
    default_bitmap_contains saturating_sub_i64 update_reference abs_diff
    update_volatility_accumulator dlmm_fee_parameters fee_on_input supports_limit_orders
    dlmm_total_fee_rate variable_fee dlmm_quote_exact_in_partial dlmm_quote_exact_in_impl
    dlmm_bin_quote_capacity quote_bins quote_bin fill_bin charge_bin add_totals bin_max_out
    amount_in_for_out amount_out_for_in excluded_fee_amount included_fee_amount ceil_div to_u64
    checked_sub checked_add_u64 checked_add_u128 checked_mul_u128 ◌*ℤ◌ ◌-ℤ◌ ◌+ℤ◌
    append_current_remaining_accounts remaining_metas invoke_infos buy_metas sell_metas buy_data
    sell_data invoke buy_exact_quote_in sell cashback_sell_is_ready to_le pump_accounts slice
    same_bytes read_pubkey check_discriminator PumpSwap.validate validate_pool_v2 validate_cashback
    Layout.parse_pump_pool cashback_flag MeteoraDlmm.validate validate_optional parse_meteora_pair
    swap2 swap2_metas swap2_infos swap2_data optional_meta meteora_accounts target_is_x
    validate_bin_arrays validate_bin_array_count validate_each validate_bin_array differs_from
    array_index validate_bin_array_data bytes from_le signed read_unsigned read_u16 read_u32
    read_u64 read_u128 read_i32 read_i64 read_byte
chosen = refl

abbrev bounds : DynamicSearchBounds
bounds = record { min_amount = 1000; max_amount = 1000; min_profit = 10 }

abbrev selection : DynamicSelection
selection = record {
  direction = pump_to_meteora;
  choice = record { amount_in = 1000; amount_out = 1994; profit = 994; used_indices = pos 0 ∷ [] };
  largest_complete_amount = 1000;
  boundary_candidates = 0;
  interior_candidates = 0;
  visited_bins = 1;
}

selected_amount :
    select_dynamic platform accounts (array_account 0 ∷ []) bounds (pos 100) ≡ ok selection
unfolding select_dynamic probe_forward_direction probe_reverse_direction curve_up_to forward_source
    reverse_source selection_of directions_to_expand decide_dynamic_search decide_choices
    better_choice probe_minimum incomplete_direction largest_forward_complete_amount within_capacity
    narrow pump_buy_amount_out evaluate_forward evaluate_reverse quote bisect quote_on_segment
    largest_complete_input dlmm_bin_output_within_capacity input_capacity output_capacity
    search_forward_direction search_reverse_direction parse_market Pump.parse_pump_pool i128_to_u64
    token_amount parse_pump_global_fees fees_at read_fee to_u16 parse_fees
    select_pump_fees_from_data without_creator all_zero parse_lb_pair parse_static_parameters
    parse_variable_parameters parse_words bitmap_extension pump_buy_exact_quote_in and_then_add
    fee_for sum_bps effective_quote_for buy_on_curve pump_sell_base_in quote_dlmm_from_accounts
    quote_rounds quote_round take_bin build_curve walk walk_round visit_array visit_bin on_capacity
    add_segment usable_bin note_array find_array array_initialized next_bin final_reason clear push
    find? parse_bin parse_bin_array_index bin_array_index offset_in_array bin_offset
    parse_bin_for_id in_default_range default_bit default_bitmap_contains saturating_sub_i64
    update_reference abs_diff update_volatility_accumulator dlmm_fee_parameters fee_on_input
    supports_limit_orders dlmm_total_fee_rate variable_fee dlmm_quote_exact_in_partial
    dlmm_quote_exact_in_impl dlmm_bin_quote_capacity quote_bins quote_bin fill_bin charge_bin
    add_totals bin_max_out amount_in_for_out amount_out_for_in excluded_fee_amount
    included_fee_amount ceil_div to_u64 checked_sub checked_add_u64 checked_add_u128
    checked_mul_u128 ◌*ℤ◌ ◌-ℤ◌ ◌+ℤ◌ append_current_remaining_accounts remaining_metas invoke_infos
    buy_metas sell_metas buy_data sell_data invoke buy_exact_quote_in sell cashback_sell_is_ready
    to_le pump_accounts slice same_bytes read_pubkey check_discriminator PumpSwap.validate
    validate_pool_v2 validate_cashback Layout.parse_pump_pool cashback_flag MeteoraDlmm.validate
    validate_optional parse_meteora_pair swap2 swap2_metas swap2_infos swap2_data optional_meta
    meteora_accounts target_is_x validate_bin_arrays validate_bin_array_count validate_each
    validate_bin_array differs_from array_index validate_bin_array_data bytes from_le signed
    read_unsigned read_u16 read_u32 read_u64 read_u128 read_i32 read_i64 read_byte
selected_amount = refl

select_direction-IsQuoted_example :
    (market : MarketState) × (parse_market platform accounts ≡ ok market)
    × IsQuoted pump_to_meteora market
        (array_account 0 ∷ [])
        (bitmap_extension accounts)
        1000
        (pos 100)
        (1000 + 10)
        (pos 0 ∷ [])
    × NeedsReady pump_to_meteora (cashback_sell_is_ready (pump_accounts accounts))
select_direction-IsQuoted_example =
    select_direction-IsQuoted platform accounts (array_account 0 ∷ []) 1000 10 (pos 100) chosen

select_dynamic-OnCurve_example :
    (market : MarketState) × (parse_market platform accounts ≡ ok market)
    × OnCurve pump_to_meteora
        (source_of pump_to_meteora accounts (array_account 0 ∷ []) (pos 100) market)
        market
        bounds
        selection.choice
select_dynamic-OnCurve_example =
    select_dynamic-OnCurve platform accounts (array_account 0 ∷ []) bounds (pos 100) (omega arith)
      (omega arith) (omega arith) selected_amount
