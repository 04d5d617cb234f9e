-- ===== src/Handlers/Tests.antt =====
-- A call of the program with the accounts of the sample.
mod Calls
mod Choices
use sol_arb_executor.Adapters.MeteoraDlmm
use sol_arb_executor.Adapters.PumpSwap
use sol_arb_executor.Handlers.Entry
use sol_arb_executor.Route.Checks
use sol_arb_executor.Route.Events
use sol_arb_executor.Route.Execute
use sol_arb_executor.Validate.Layout
use sol_arb_executor.Accounts.Bytes.{
  bytes, from_le, read_byte, read_i32, read_i64, read_u128, read_u16, read_u32, read_u64,
  read_unsigned, signed,
}
use sol_arb_executor.Adapters.Encode.{to_le}
use sol_arb_executor.Adapters.MeteoraDlmm.{
  optional_meta, swap2, swap2_data, swap2_infos, swap2_metas, validate_optional,
}
use sol_arb_executor.Adapters.PumpSwap.{cashback_sell_is_ready, validate_cashback, validate_pool_v2}
use sol_arb_executor.Adapters.PumpSwap.Invoke.{
  append_current_remaining_accounts, buy_data, buy_exact_quote_in, buy_metas, invoke, invoke_infos,
  remaining_metas, sell, sell_data, sell_metas,
}
use sol_arb_executor.Errors.{ok}
use sol_arb_executor.Handlers.Context.{
  is_valid_pair, meteora_accounts, pump_accounts, target_is_x, validate_route_mints, with_infos,
}
use sol_arb_executor.Handlers.Entry.{dispatch}
use sol_arb_executor.Handlers.Entry.Allows.{IsTradeOf, amount_limit}
use sol_arb_executor.Handlers.Entry.Dispatch.{dispatch-IsTradeOf}
use sol_arb_executor.Handlers.Entry.Trades.{IsSound}
use sol_arb_executor.Handlers.Run.{
  PumpToMeteoraArgs, exchanges, execute, pump_to_meteora_handler, route_accounts,
}
use sol_arb_executor.Handlers.Sample.{Balances, accounts, arrays, key_of, platform}
use sol_arb_executor.Prelude.{Bool-cases, List, arith, refl, ℕ, ◌-◌, ◌<◌, ◌≡◌}
use sol_arb_executor.Route.Checks.{checked_increase, enforce, required_second_leg_out}
use sol_arb_executor.Route.Execute.{Outcome, route_events}
use sol_arb_executor.Validate.BinArrays.{
  array_index, differs_from, validate_bin_array, validate_bin_array_count, validate_bin_arrays,
  validate_each,
}
use sol_arb_executor.Validate.Layout.{
  cashback_flag, check_discriminator, parse_meteora_pair, read_pubkey, same_bytes, slice,
  validate_bin_array_data, validate_user_token_fields,
}
use sol_arb_executor.Validate.Tokens.{
  is_supported_token_program, validate_route_token_programs, validate_supported_target_mint,
}
use sol_arb_executor.Word.{checked_add_u64, checked_sub, u64_max, u64_size}
use mathlib.Core.List.{Nodup}
use sol_arb_executor.Prelude.{min, length, Bool-cases, inl, inr, if◌then◌else◌, find?}
use sol_arb_executor.Prelude.Int.{ℤ}
use sol_arb_executor.Accounts.Types.{AccountInfo}
use sol_arb_executor.Dynamic.Types.{pump_to_meteora}
use sol_arb_executor.Route.Execute.{Outcome, route_events}
use sol_arb_executor.Adapters.Sent.{Sent}
use sol_arb_executor.Handlers.Direction.Quoted.{IsQuoted}
use sol_arb_executor.Handlers.Entry.Allows.{amount_limit}
use sol_arb_executor.Handlers.Select.Worth.{select_dynamic-OnCurve}
use sol_arb_executor.Handlers.Select.OnCurve.{OnCurve}

abbrev args : PumpToMeteoraArgs
args = record { wsol_amount_in = 100; min_profit_lamports = 50 }

abbrev outcome : Outcome Balances
outcome = record {
  ledger = (1100, 5);
  accounts = record (route_accounts accounts) { user_wsol_amount = 1100 };
  events = route_events Events.pump_to_meteora (route_accounts accounts) 200 200 1100;
}

dispatched :
    dispatch platform (Entry.execute_pump_to_meteora args) accounts arrays (1000, 5) ≡ ok outcome
unfolding validate_route_mints validate_route_token_programs is_supported_token_program
    validate_supported_target_mint validate_user_token_fields is_valid_pair execute exchanges
    route_accounts with_infos Execute.execute_pump_to_meteora Execute.execute_meteora_to_pump
    checked_increase required_second_leg_out enforce checked_sub checked_add_u64
    Checks.validate_args pump_to_meteora_handler dispatch PumpSwap.validate validate_pool_v2
    validate_cashback Layout.parse_pump_pool cashback_flag slice same_bytes read_pubkey
    check_discriminator append_current_remaining_accounts remaining_metas invoke_infos buy_metas
    sell_metas buy_data sell_data invoke buy_exact_quote_in sell cashback_sell_is_ready to_le
    pump_accounts MeteoraDlmm.validate validate_optional parse_meteora_pair swap2 swap2_metas
    swap2_infos swap2_data optional_meta meteora_accounts target_is_x validate_bin_arrays
    validate_bin_array_count validate_each validate_bin_array differs_from array_index
    validate_bin_array_data bytes from_le signed read_unsigned read_u16 read_u32 read_u64 read_u128
    read_i32 read_i64 read_byte
dispatched = refl

small : (amount : ℕ) → min amount u64_max < u64_size
small amount = omega arith

-- The amounts that the platform reloads are cut off at the largest u64.
platform_amounts : (ledger : Balances) (key : List ℕ) → platform.reload ledger key < u64_size
platform_amounts ledger key = elim (Bool-cases (same_bytes key (key_of 21))) [
  | inl is_wsol ↦ rw is_wsol (small ledger.0)
  | inr other ↦ rw other (small ledger.1)
]

platform-IsSound : IsSound platform
platform-IsSound = record { keeps_key = λ ledger a. refl; amount_small = platform_amounts }

dispatch-IsTradeOf_example :
    IsTradeOf platform (Entry.execute_pump_to_meteora args) accounts (1000, 5) outcome
unfolding amount_limit
dispatch-IsTradeOf_example =
    dispatch-IsTradeOf platform (Entry.execute_pump_to_meteora args) accounts arrays (1000, 5)
      platform-IsSound (omega arith) dispatched
