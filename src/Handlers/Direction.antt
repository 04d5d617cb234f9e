-- ===== src/Handlers/Direction.antt =====
-- `select_direction` of instructions/best_direction.rs.
pub mod Quoted
use sol_arb_executor.Prelude.{
  ℕ, min, List, ◌∷◌, map, false, not, ◌&&◌, Option, none, some, leb, if◌then◌else◌,
}
use sol_arb_executor.Prelude.Int.{ℤ}
use sol_arb_executor.Errors.{
  ArbError, arithmetic_overflow, best_direction_quote_incomplete, invalid_dynamic_amount_range,
  Result, ok, err, ◌>>=◌, ◌>>◌, require, ok_or, to_option, ok_and_then,
}
use sol_arb_executor.Word.{checked_add_u64}
use sol_arb_executor.Accounts.Types.{AccountInfo}
use sol_arb_executor.Dynamic.Types.{
  SelectedDirection, pump_to_meteora, meteora_to_pump, MarketState, BestDirectionDynamicArgs,
  DynamicSelection,
}
use sol_arb_executor.Dynamic.Forward.{market_buy, market_sell}
use sol_arb_executor.Dynamic.Decide
use sol_arb_executor.Route.Events
use sol_arb_executor.Route.Events.{RouteDirection, Event, dynamic_amount_selected}
use sol_arb_executor.Route.Checks.{validate_args}
use sol_arb_executor.Route.Direction.{
  AccountDataQuote, choose_direction, quote_dlmm_from_accounts, ordered_bin_arrays,
}
use sol_arb_executor.Route.Execute.{
  UserAccount, user_wsol, user_target, Exchanges, RouteAccounts, Outcome, execute_pump_to_meteora,
  execute_meteora_to_pump,
}
use sol_arb_executor.Validate.Platform.{Platform}
use sol_arb_executor.Adapters.PumpSwap
use sol_arb_executor.Adapters.PumpSwap.{cashback_sell_is_ready}
use sol_arb_executor.Adapters.MeteoraDlmm.{swap2}
use sol_arb_executor.Handlers.Context.{
  ExecuteRoute, with_infos, pump_accounts, meteora_accounts, validate_route_mints,
}
use sol_arb_executor.Handlers.Market.{bitmap_extension, parse_market, validate_quote_accounts}
use sol_arb_executor.Handlers.Select.{select_dynamic}

-- The quote of Pump to Meteora.
unfoldable pub forward_quote :
    MarketState → List AccountInfo → Option (List ℕ) → ℕ → ℤ → Option AccountDataQuote
forward_quote market arrays extension amount_in timestamp =
    ok_and_then (market_buy market amount_in) λ pump_buy. to_option (
      quote_dlmm_from_accounts pump_buy.amount_out market.pair arrays extension market.target_is_x
        timestamp)

-- The quote of Meteora to Pump, with its output.
unfoldable pub reverse_quote :
    MarketState → List AccountInfo → Option (List ℕ) → ℕ → ℤ → Option (ℕ × AccountDataQuote)
reverse_quote market arrays extension amount_in timestamp =
    ok_and_then
      (quote_dlmm_from_accounts amount_in market.pair arrays extension (not market.target_is_x)
        timestamp)
      λ dlmm_quote.
        ok_and_then (market_sell market dlmm_quote.amount_out)
          λ pump_sell. some (pump_sell.amount_out, dlmm_quote)

abbrev pub forward_output : Option AccountDataQuote → Option ℕ
forward_output none = none
forward_output (some quote) = some quote.amount_out

abbrev pub reverse_output : Option (ℕ × AccountDataQuote) → Option ℕ
reverse_output none = none
reverse_output (some quote) = some quote.0

-- The bin arrays of the quote of the chosen direction.
unfoldable pub used_by :
    Option AccountDataQuote
    → Option (ℕ × AccountDataQuote)
    → SelectedDirection
    → Result ArbError (List ℤ)
used_by forward reverse pump_to_meteora = do
  quote ← ok_or forward best_direction_quote_incomplete
  ok quote.used_indices
used_by forward reverse meteora_to_pump = do
  quote ← ok_or reverse best_direction_quote_incomplete
  ok quote.1.used_indices

module _ {Ledger : Type 0} (p : Platform Ledger) where
  -- `select_direction`; it reads the market as `parse_market` does.
  unfoldable pub select_direction :
      ExecuteRoute → List AccountInfo → ℕ → ℕ → ℤ → Result ArbError (SelectedDirection × List ℤ)
  select_direction accounts arrays amount_in min_profit timestamp = do
    market ← parse_market p accounts
    let extension = bitmap_extension accounts
    let forward = forward_quote market arrays extension amount_in timestamp
    ready ← cashback_sell_is_ready (pump_accounts accounts)
    let reverse = if ready then reverse_quote market arrays extension amount_in timestamp else none
    required_out ← ok_or (checked_add_u64 amount_in min_profit) arithmetic_overflow
    direction ← choose_direction (forward_output forward) (reverse_output reverse) required_out
    used ← used_by forward reverse direction
    ok (direction, used)
