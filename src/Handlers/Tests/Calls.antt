-- ===== src/Handlers/Tests/Calls.antt =====
-- Instructions that are sent for the accounts of the sample.
use sol_arb_executor.Adapters.MeteoraDlmm
use sol_arb_executor.Adapters.PumpSwap
use sol_arb_executor.Validate.Layout
use sol_arb_executor.Accounts.Bytes.{
  bytes, from_le, read_byte, read_i32, read_i64, read_u128, read_u16, read_u32, read_u64,
  read_unsigned, signed,
}
use sol_arb_executor.Adapters.Encode.{to_le}
use sol_arb_executor.Adapters.MeteoraDlmm.{
  MeteoraAccounts, optional_meta, swap2, swap2_data, swap2_infos, swap2_metas, validate_optional,
}
use sol_arb_executor.Adapters.MeteoraDlmm.Swap.{MatchesPair, swap2-Sent}
use sol_arb_executor.Adapters.PumpSwap.{cashback_sell_is_ready, validate_cashback, validate_pool_v2}
use sol_arb_executor.Adapters.PumpSwap.Invoke.{
  append_current_remaining_accounts, buy_data, buy_exact_quote_in, buy_metas, invoke, invoke_infos,
  remaining_metas, sell, sell_data, sell_metas,
}
use sol_arb_executor.Adapters.PumpSwap.Trade.{buy_exact_quote_in-Sent, sell-Sent}
use sol_arb_executor.Adapters.PumpSwap.Valid.{MatchesPool}
use sol_arb_executor.Adapters.Sent.{Sent}
use sol_arb_executor.Errors.{ok}
use sol_arb_executor.Handlers.Context.{meteora_accounts, pump_accounts, target_is_x}
use sol_arb_executor.Handlers.Sample.{accounts, arrays, key_of, platform}
use sol_arb_executor.Prelude.{List, arith, length, refl, true, ◌<◌, ◌≡◌, ◌≤◌}
use sol_arb_executor.Prelude.Int.{ℤ}
use sol_arb_executor.Validate.BinArrays.{
  array_index, differs_from, validate_bin_array, validate_bin_array_count, validate_bin_arrays,
  validate_each,
}
use sol_arb_executor.Validate.BinArrays.Distinct.{
  AreBinArrays, Indexed, validate_bin_arrays-AreBinArrays,
}
use sol_arb_executor.Validate.Constants.{
  meteora_dlmm_program_id, meteora_swap2_discriminator, pump_buy_exact_quote_in_discriminator,
  pump_sell_discriminator, pump_swap_program_id,
}
use sol_arb_executor.Validate.Layout.{
  cashback_flag, check_discriminator, parse_meteora_pair, read_pubkey, same_bytes, slice,
  validate_bin_array_data,
}
use mathlib.Core.List.{Nodup}
use sol_arb_executor.Prelude.{length}
use sol_arb_executor.Prelude.Int.{ℤ}
use sol_arb_executor.Adapters.Sent.{Sent}

arrays_valid : validate_bin_arrays arrays (key_of 7) ≡ ok tt
unfolding validate_bin_arrays validate_bin_array_count validate_each validate_bin_array differs_from
    array_index validate_bin_array_data slice same_bytes read_pubkey check_discriminator bytes
    from_le signed read_unsigned read_u16 read_u32 read_u64 read_u128 read_i32 read_i64 read_byte
arrays_valid = refl

bought : buy_exact_quote_in platform (pump_accounts accounts) 100 1 (1000, 5) ≡ ok (900, 205)
unfolding PumpSwap.validate validate_pool_v2 validate_cashback Layout.parse_pump_pool cashback_flag
    slice same_bytes read_pubkey check_discriminator append_current_remaining_accounts
    remaining_metas invoke_infos buy_metas sell_metas buy_data sell_data invoke buy_exact_quote_in
    sell cashback_sell_is_ready to_le pump_accounts bytes from_le signed read_unsigned read_u16
    read_u32 read_u64 read_u128 read_i32 read_i64 read_byte
bought = refl

sold : sell platform (pump_accounts accounts) 200 150 (900, 205) ≡ ok (1100, 5)
unfolding PumpSwap.validate validate_pool_v2 validate_cashback Layout.parse_pump_pool cashback_flag
    slice same_bytes read_pubkey check_discriminator append_current_remaining_accounts
    remaining_metas invoke_infos buy_metas sell_metas buy_data sell_data invoke buy_exact_quote_in
    sell cashback_sell_is_ready to_le pump_accounts bytes from_le signed read_unsigned read_u16
    read_u32 read_u64 read_u128 read_i32 read_i64 read_byte
sold = refl

abbrev swap_accounts : MeteoraAccounts
swap_accounts = meteora_accounts accounts accounts.user_target.info accounts.user_wsol.info

swapped : swap2 platform swap_accounts arrays 200 150 (900, 205) ≡ ok (1100, 5)
unfolding MeteoraDlmm.validate validate_optional parse_meteora_pair swap2 swap2_metas swap2_infos
    swap2_data optional_meta meteora_accounts target_is_x validate_bin_arrays
    validate_bin_array_count validate_each validate_bin_array differs_from array_index
    validate_bin_array_data slice same_bytes read_pubkey check_discriminator bytes from_le signed
    read_unsigned read_u16 read_u32 read_u64 read_u128 read_i32 read_i64 read_byte
    append_current_remaining_accounts remaining_metas invoke_infos buy_metas sell_metas buy_data
    sell_data invoke buy_exact_quote_in sell cashback_sell_is_ready to_le pump_accounts
swapped = refl

validate_bin_arrays-AreBinArrays_example :
    (0 < length arrays)
    × (length arrays ≤ 8)
    × AreBinArrays (key_of 7) arrays
    × (is : List ℤ) × Indexed arrays is
    × Nodup is
validate_bin_arrays-AreBinArrays_example =
    validate_bin_arrays-AreBinArrays arrays (key_of 7) arrays_valid

buy_exact_quote_in-Sent_example :
    MatchesPool (pump_accounts accounts)
    × Sent platform pump_swap_program_id
        (pump_accounts accounts).user.key
        pump_buy_exact_quote_in_discriminator
        100
        1
        (1000, 5)
        (900, 205)
buy_exact_quote_in-Sent_example =
    buy_exact_quote_in-Sent platform (pump_accounts accounts) 100 1 (omega arith) (omega arith)
      bought

sell-Sent_example :
    MatchesPool (pump_accounts accounts)
    × (cashback_sell_is_ready (pump_accounts accounts) ≡ ok true)
    × Sent platform pump_swap_program_id
        (pump_accounts accounts).user.key
        pump_sell_discriminator
        200
        150
        (900, 205)
        (1100, 5)
sell-Sent_example =
    sell-Sent platform (pump_accounts accounts) 200 150 (omega arith) (omega arith) sold

swap2-Sent_example :
    MatchesPair swap_accounts
    × (validate_bin_arrays arrays swap_accounts.lb_pair.key ≡ ok tt)
    × Sent platform meteora_dlmm_program_id swap_accounts.user.key meteora_swap2_discriminator 200
        150
        (900, 205)
        (1100, 5)
swap2-Sent_example =
    swap2-Sent platform swap_accounts arrays 200 150 (omega arith) (omega arith) swapped
