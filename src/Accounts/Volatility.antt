-- ===== src/Accounts/Volatility.antt =====
-- programs/sol-arb-executor/src/quote/accounts.rs: the volatility state of a pair, the fee
-- parameters that follow from it, and the modes of a pair.
use sol_arb_executor.Prelude.{
  ℕ, ◌+◌, ◌-◌, ◌*◌, ◌/◌, ◌%◌, ◌^◌, min, Bool, true, false, not, ◌==◌, if◌then◌else◌,
}
use sol_arb_executor.Prelude.Int.{ℤ, pos, negsuc, ◌-ℤ◌, pos_part, neg_part, leb_ℤ, ltb_ℤ}
use sol_arb_executor.Errors.{QuoteError, invalid_input, Result, ok, err}
use sol_arb_executor.Word.{u32_size, u64_max}
use sol_arb_executor.Quote.Types.{DlmmFeeParameters}
use sol_arb_executor.Accounts.Types.{DlmmStaticParameters, DlmmVariableParameters, LbPairState}

abbrev pub u32_max : ℕ
u32_max = 2 ^ 32 - 1

-- `saturating_sub` of two i64s.
unfoldable pub saturating_sub_i64 : ℤ → ℤ → ℤ
saturating_sub_i64 a b =
    let d = a -ℤ b in
    if ltb_ℤ d (negsuc (2 ^ 63 - 1))
    then negsuc (2 ^ 63 - 1)
    else (if ltb_ℤ (pos (2 ^ 63 - 1)) d then pos (2 ^ 63 - 1) else d)

unfoldable pub update_reference :
    ℤ → DlmmVariableParameters → DlmmStaticParameters → ℤ → DlmmVariableParameters
update_reference active_id variable parameters timestamp =
    let elapsed = saturating_sub_i64 timestamp variable.last_update_timestamp in
    if leb_ℤ (pos parameters.filter_period) elapsed
    then record variable {
      index_reference = active_id;
      volatility_reference =
          if ltb_ℤ elapsed (pos parameters.decay_period)
          then min (variable.volatility_accumulator * parameters.reduction_factor) u64_max
            / 10_000
            % u32_size
          else 0;
    }
    else variable

-- `a.abs_diff(b)` of two i64s.
unfoldable pub abs_diff : ℤ → ℤ → ℕ
abs_diff a b = let d = a -ℤ b in pos_part d + neg_part d

unfoldable pub update_volatility_accumulator :
    ℤ → DlmmVariableParameters → DlmmStaticParameters → DlmmVariableParameters
update_volatility_accumulator active_id variable parameters =
    let delta = min (abs_diff variable.index_reference active_id) u32_max in
    record variable {
      volatility_accumulator =
          min (min (variable.volatility_reference + min (delta * 10_000) u32_max) u32_max)
            parameters.max_volatility_accumulator;
    }

unfoldable pub dlmm_fee_parameters : LbPairState → DlmmVariableParameters → DlmmFeeParameters
dlmm_fee_parameters pair variable = record {
  bin_step = pair.bin_step;
  base_factor = pair.static_parameters.base_factor;
  base_fee_power_factor = pair.static_parameters.base_fee_power_factor;
  variable_fee_control = pair.static_parameters.variable_fee_control;
  volatility_accumulator = variable.volatility_accumulator;
}

unfoldable pub fee_on_input : LbPairState → Bool → Result QuoteError Bool
fee_on_input pair swap_for_y =
    let mode = pair.static_parameters.collect_fee_mode in
    if mode == 0 then ok true else (if mode == 1 then ok (not swap_for_y) else err invalid_input)

unfoldable pub supports_limit_orders : LbPairState → Result QuoteError Bool
supports_limit_orders pair =
    let function_type = pair.static_parameters.function_type in
    if function_type == 2
    then ok true
    else (if function_type == 1
        then ok false
        else (if function_type == 0 then ok pair.rewards_are_empty else err invalid_input))
