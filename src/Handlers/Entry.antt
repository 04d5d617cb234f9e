-- ===== src/Handlers/Entry.antt =====
-- lib.rs: the entry points of the program.
pub mod Trades
pub mod Allows
pub mod Dispatch
use sol_arb_executor.Prelude.{ℕ, List}
use sol_arb_executor.Errors.{ArbError, Result}
use sol_arb_executor.Accounts.Types.{AccountInfo}
use sol_arb_executor.Dynamic.Types.{BestDirectionDynamicArgs}
use sol_arb_executor.Route.Execute.{Outcome}
use sol_arb_executor.Validate.Platform.{Platform}
use sol_arb_executor.Handlers.Context.{ExecuteRoute}
use sol_arb_executor.Handlers.Run.{
  PumpToMeteoraArgs, MeteoraToPumpArgs, BestDirectionArgs, pump_to_meteora_handler,
  meteora_to_pump_handler, best_direction_handler, dynamic_handler,
}

-- A call of the program.
pub data EntryPoint : Type 0 where
  execute_pump_to_meteora : PumpToMeteoraArgs → EntryPoint
  execute_meteora_to_pump : MeteoraToPumpArgs → EntryPoint
  execute_best_direction : BestDirectionArgs → EntryPoint
  execute_best_direction_dynamic : BestDirectionDynamicArgs → EntryPoint

unfoldable pub dispatch :
    {Ledger : Type 0}
    → Platform Ledger
    → EntryPoint
    → ExecuteRoute
    → List AccountInfo
    → Ledger
    → Result ArbError (Outcome Ledger)
dispatch p (execute_pump_to_meteora args) accounts remaining ledger =
    pump_to_meteora_handler p accounts remaining args ledger
dispatch p (execute_meteora_to_pump args) accounts remaining ledger =
    meteora_to_pump_handler p accounts remaining args ledger
dispatch p (execute_best_direction args) accounts remaining ledger =
    best_direction_handler p accounts remaining args ledger
dispatch p (execute_best_direction_dynamic args) accounts remaining ledger =
    dynamic_handler p accounts remaining args ledger
