-- ===== src/Handlers/Entry/Allows.antt =====
-- What a call of the program asks for: its limits, and the trades that it allows.
use sol_arb_executor.Prelude.{ℕ, ◌≤◌, ◌<◌, ◌≡◌}
use sol_arb_executor.Dynamic.Types.{SelectedDirection, pump_to_meteora, meteora_to_pump}
use sol_arb_executor.Route.Execute.{Outcome}
use sol_arb_executor.Validate.Platform.{Platform}
use sol_arb_executor.Handlers.Context.{ExecuteRoute}
use sol_arb_executor.Handlers.Entry.{
  EntryPoint, execute_pump_to_meteora, execute_meteora_to_pump, execute_best_direction,
  execute_best_direction_dynamic,
}
use sol_arb_executor.Handlers.Entry.Trades.{IsTrade}

-- The minimum profit that a call asks for.
unfoldable pub min_profit_of : EntryPoint → ℕ
min_profit_of (execute_pump_to_meteora args) = args.min_profit_lamports
min_profit_of (execute_meteora_to_pump args) = args.min_profit_lamports
min_profit_of (execute_best_direction args) = args.min_profit_lamports
min_profit_of (execute_best_direction_dynamic args) = args.min_profit_lamports

-- The directions and the amounts that a call allows, for a balance.
unfoldable pub Allows : EntryPoint → ℕ → SelectedDirection → ℕ → Type 0
Allows (execute_pump_to_meteora args) balance d amount =
    (d ≡ pump_to_meteora) × (amount ≡ args.wsol_amount_in)
Allows (execute_meteora_to_pump args) balance d amount =
    (d ≡ meteora_to_pump) × (amount ≡ args.wsol_amount_in)
Allows (execute_best_direction args) balance d amount = amount ≡ args.wsol_amount_in
Allows (execute_best_direction_dynamic args) balance d amount =
    (args.min_wsol_amount_in ≤ amount) × (amount ≤ args.max_wsol_amount_in) × (amount ≤ balance)

-- The largest amount that a call names.
unfoldable pub amount_limit : EntryPoint → ℕ
amount_limit (execute_pump_to_meteora args) = args.wsol_amount_in
amount_limit (execute_meteora_to_pump args) = args.wsol_amount_in
amount_limit (execute_best_direction args) = args.wsol_amount_in
amount_limit (execute_best_direction_dynamic args) = args.max_wsol_amount_in

-- A trade that a call allows, of a positive amount and for a positive minimum profit.
abbrev pub IsTradeOf :
    {Ledger : Type 0}
    → Platform Ledger
    → EntryPoint
    → ExecuteRoute
    → Ledger
    → Outcome Ledger
    → Type 0
IsTradeOf p e accounts start o =
    (d : SelectedDirection) × (amount : ℕ) × Allows e accounts.user_wsol.amount d amount
    × (0 < amount)
    × (0 < min_profit_of e)
    × IsTrade p accounts d amount (min_profit_of e) start o
