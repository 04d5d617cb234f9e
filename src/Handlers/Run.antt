-- ===== src/Handlers/Run.antt =====
-- The handlers of the four instructions: instructions/pump_to_meteora.rs, meteora_to_pump.rs,
-- best_direction.rs with `select_direction`, and dynamic_amount.rs.
use sol_arb_executor.Prelude.{ℕ, min, List, ◌∷◌, map, false, ◌&&◌, leb}
use sol_arb_executor.Errors.{
  ArbError, invalid_dynamic_amount_range, Result, ok, ◌>>=◌, ◌>>◌, require,
}
use sol_arb_executor.Accounts.Types.{AccountInfo}
use sol_arb_executor.Dynamic.Types.{
  SelectedDirection, pump_to_meteora, meteora_to_pump, BestDirectionDynamicArgs, DynamicSelection,
}
use sol_arb_executor.Dynamic.Decide
use sol_arb_executor.Route.Events
use sol_arb_executor.Route.Events.{RouteDirection, Event, dynamic_amount_selected}
use sol_arb_executor.Route.Checks.{validate_args}
use sol_arb_executor.Route.Direction.{ordered_bin_arrays}
use sol_arb_executor.Route.Execute.{
  UserAccount, user_wsol, user_target, Exchanges, RouteAccounts, Outcome, execute_pump_to_meteora,
  execute_meteora_to_pump,
}
use sol_arb_executor.Validate.Platform.{Platform}
use sol_arb_executor.Adapters.PumpSwap.Invoke
use sol_arb_executor.Adapters.MeteoraDlmm.{swap2}
use sol_arb_executor.Handlers.Context.{
  ExecuteRoute, with_infos, pump_accounts, meteora_accounts, validate_route_mints,
}
use sol_arb_executor.Handlers.Market.{validate_quote_accounts}
use sol_arb_executor.Handlers.Select.{select_dynamic}
use sol_arb_executor.Handlers.Direction.{select_direction}

pub record PumpToMeteoraArgs : Type 0 where
  pub wsol_amount_in : ℕ
  pub min_profit_lamports : ℕ

pub record MeteoraToPumpArgs : Type 0 where
  pub wsol_amount_in : ℕ
  pub min_profit_lamports : ℕ

pub record BestDirectionArgs : Type 0 where
  pub wsol_amount_in : ℕ
  pub min_profit_lamports : ℕ

-- The account of the trader that an argument of `meteora_accounts` names.
abbrev pub user_account : ExecuteRoute → UserAccount → AccountInfo
user_account accounts user_wsol = accounts.user_wsol.info
user_account accounts user_target = accounts.user_target.info

-- What `execute` reads of its accounts.
unfoldable pub route_accounts : ExecuteRoute → RouteAccounts
route_accounts accounts = record {
  trader = accounts.trader.key;
  target_mint = accounts.target_mint.info.key;
  user_wsol_amount = accounts.user_wsol.amount;
  user_target_amount = accounts.user_target.amount;
}

module _ {Ledger : Type 0} (p : Platform Ledger) where
  -- The calls of the adapters and the reloads of the two functions `execute`: each call is given the
  -- accounts as they stand on the ledger of the call.
  unfoldable pub exchanges : ExecuteRoute → Exchanges Ledger
  exchanges accounts = record {
    wsol_balance = λ ledger. p.reload ledger accounts.user_wsol.info.key;
    target_balance = λ ledger. p.reload ledger accounts.user_target.info.key;
    buy_exact_quote_in = λ amount min_out ledger.
        Invoke.buy_exact_quote_in p (pump_accounts (with_infos (p.refresh ledger) accounts)) amount
          min_out ledger;
    sell = λ amount min_out ledger.
        Invoke.sell p (pump_accounts (with_infos (p.refresh ledger) accounts)) amount min_out
          ledger;
    swap2 = λ input output arrays amount min_out ledger.
        let current = with_infos (p.refresh ledger) accounts in
        swap2 p
          (meteora_accounts current (user_account current input) (user_account current output))
          (map (p.refresh ledger) arrays) amount min_out ledger;
  }

  -- The match on the direction that ends a selecting handler.
  unfoldable pub execute :
      SelectedDirection
      → ExecuteRoute
      → List AccountInfo
      → ℕ
      → ℕ
      → Ledger
      → Result ArbError (Outcome Ledger)
  execute pump_to_meteora accounts arrays amount min_profit ledger =
      execute_pump_to_meteora (exchanges accounts) (route_accounts accounts) ledger arrays amount
        min_profit
  execute meteora_to_pump accounts arrays amount min_profit ledger =
      execute_meteora_to_pump (exchanges accounts) (route_accounts accounts) ledger arrays amount
        min_profit

  unfoldable pub pump_to_meteora_handler :
      ExecuteRoute
      → List AccountInfo
      → PumpToMeteoraArgs
      → Ledger
      → Result ArbError (Outcome Ledger)
  pump_to_meteora_handler accounts remaining args ledger = do
    validate_args args.wsol_amount_in args.min_profit_lamports
    validate_route_mints p accounts
    execute pump_to_meteora accounts remaining args.wsol_amount_in args.min_profit_lamports ledger

  unfoldable pub meteora_to_pump_handler :
      ExecuteRoute
      → List AccountInfo
      → MeteoraToPumpArgs
      → Ledger
      → Result ArbError (Outcome Ledger)
  meteora_to_pump_handler accounts remaining args ledger = do
    validate_args args.wsol_amount_in args.min_profit_lamports
    validate_route_mints p accounts
    execute meteora_to_pump accounts remaining args.wsol_amount_in args.min_profit_lamports ledger

  unfoldable pub best_direction_handler :
      ExecuteRoute
      → List AccountInfo
      → BestDirectionArgs
      → Ledger
      → Result ArbError (Outcome Ledger)
  best_direction_handler accounts remaining args ledger = do
    validate_args args.wsol_amount_in args.min_profit_lamports
    validate_route_mints p accounts
    validate_quote_accounts p accounts remaining
    timestamp ← p.unix_timestamp ledger
    chosen ←
        select_direction p accounts remaining args.wsol_amount_in args.min_profit_lamports timestamp
    arrays ← ordered_bin_arrays remaining chosen.1
    execute chosen.0 accounts arrays args.wsol_amount_in args.min_profit_lamports ledger

-- `event_direction`.
unfoldable pub event_direction : SelectedDirection → RouteDirection
event_direction pump_to_meteora = Events.pump_to_meteora
event_direction meteora_to_pump = Events.meteora_to_pump

-- The event of a selection.
unfoldable pub selection_event : BestDirectionDynamicArgs → ℕ → DynamicSelection → Event
selection_event args balance_limited_max selection = dynamic_amount_selected (record {
  direction = event_direction selection.direction;
  min_wsol_amount_in = args.min_wsol_amount_in;
  max_wsol_amount_in = args.max_wsol_amount_in;
  balance_limited_max = balance_limited_max;
  largest_complete_amount = selection.largest_complete_amount;
  actual_wsol_amount_in = selection.choice.amount_in;
  expected_wsol_amount_out = selection.choice.amount_out;
  expected_profit_lamports = selection.choice.profit;
  visited_bins = selection.visited_bins;
  boundary_candidates = selection.boundary_candidates;
  interior_candidates = selection.interior_candidates;
  early_stop_used = false;
})

module _ {Ledger : Type 0} (p : Platform Ledger) where
  unfoldable pub dynamic_handler :
      ExecuteRoute
      → List AccountInfo
      → BestDirectionDynamicArgs
      → Ledger
      → Result ArbError (Outcome Ledger)
  dynamic_handler accounts remaining args ledger = do
    Decide.validate_args args
    validate_route_mints p accounts
    validate_quote_accounts p accounts remaining
    let balance_limited_max = min args.max_wsol_amount_in accounts.user_wsol.amount
    require (leb args.min_wsol_amount_in balance_limited_max) invalid_dynamic_amount_range
    timestamp ← p.unix_timestamp ledger
    selection ←
        select_dynamic p accounts remaining
          (record {
            min_amount = args.min_wsol_amount_in;
            max_amount = balance_limited_max;
            min_profit = args.min_profit_lamports;
          })
          timestamp
    require
        (leb args.min_wsol_amount_in selection.choice.amount_in
          && leb selection.choice.amount_in balance_limited_max)
        invalid_dynamic_amount_range
    arrays ← ordered_bin_arrays remaining selection.choice.used_indices
    outcome ←
        execute p selection.direction accounts arrays selection.choice.amount_in
          args.min_profit_lamports ledger
    ok (record outcome {
      events = selection_event args balance_limited_max selection ∷ outcome.events;
    })
