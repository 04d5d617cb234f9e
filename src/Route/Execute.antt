-- ===== src/Route/Execute.antt =====
-- instructions/pump_to_meteora.rs and meteora_to_pump.rs: the two legs of a route.
-- The exchanges are other programs: what a leg does to the ledger is a parameter.
pub mod Settled
use sol_arb_executor.Prelude.{ℕ, List, [], ◌∷◌}
use sol_arb_executor.Errors.{ArbError, Result, ok, err, ◌>>=◌, ◌>>◌}
use sol_arb_executor.Accounts.Types.{AccountInfo}
use sol_arb_executor.Route.Events.{
  RouteDirection, pump_to_meteora, meteora_to_pump, Event, route_started, first_leg_completed,
  second_leg_completed, route_completed,
}
use sol_arb_executor.Route.Checks.{
  validate_args, required_second_leg_out, enforce, checked_increase,
}

-- The token account that a swap of Meteora takes from or pays to.
pub data UserAccount : Type 0 where
  user_wsol user_target : UserAccount

-- The ledger outside the program: the balances that `reload` reads, and the calls of the adapters,
-- each with an amount and a minimum output.
pub record Exchanges (Ledger : Type 0) : Type 0 where
  pub wsol_balance : Ledger → ℕ
  pub target_balance : Ledger → ℕ
  pub buy_exact_quote_in : ℕ → ℕ → Ledger → Result ArbError Ledger
  pub sell : ℕ → ℕ → Ledger → Result ArbError Ledger
  pub swap2 : UserAccount → UserAccount → List AccountInfo → ℕ → ℕ → Ledger → Result ArbError Ledger

-- The part of `ExecuteRoute` that a route reads: the two cached balances are those of the ledger
-- when the accounts were loaded.
pub record RouteAccounts : Type 0 where
  pub trader : List ℕ
  pub target_mint : List ℕ
  pub user_wsol_amount : ℕ
  pub user_target_amount : ℕ

-- The ledger, the cached balances and the log after a route.
pub record Outcome (Ledger : Type 0) : Type 0 where
  pub ledger : Ledger
  pub accounts : RouteAccounts
  pub events : List Event

-- The four events of a route.
abbrev pub route_events : RouteDirection → RouteAccounts → ℕ → ℕ → ℕ → List Event
route_events direction accounts first_delta second_delta final_wsol =
    route_started (record {
      direction = direction;
      trader = accounts.trader;
      target_mint = accounts.target_mint;
      initial_wsol_balance = accounts.user_wsol_amount;
    })
    ∷ first_leg_completed (record { direction = direction; actual_target_delta = first_delta })
    ∷ second_leg_completed (record { direction = direction; actual_wsol_delta = second_delta })
    ∷ route_completed (record {
      direction = direction;
      trader = accounts.trader;
      target_mint = accounts.target_mint;
      initial_wsol_balance = accounts.user_wsol_amount;
      final_wsol_balance = final_wsol;
      first_leg_target_delta = first_delta;
      second_leg_wsol_delta = second_delta;
    })
    ∷ []

module _ {Ledger : Type 0} (x : Exchanges Ledger) where
  -- `pump_to_meteora::execute`.
  unfoldable pub execute_pump_to_meteora :
      RouteAccounts → Ledger → List AccountInfo → ℕ → ℕ → Result ArbError (Outcome Ledger)
  execute_pump_to_meteora accounts start bin_arrays wsol_amount_in min_profit_lamports = do
    let initial_wsol = accounts.user_wsol_amount
    let initial_target = accounts.user_target_amount
    bought ← x.buy_exact_quote_in wsol_amount_in 1 start
    actual_target_delta ← checked_increase initial_target (x.target_balance bought)
    let wsol_before_second_leg = x.wsol_balance bought
    required_out ← required_second_leg_out initial_wsol wsol_before_second_leg min_profit_lamports
    sold ← x.swap2 user_target user_wsol bin_arrays actual_target_delta required_out bought
    let final_wsol = x.wsol_balance sold
    second_leg_wsol_delta ← checked_increase wsol_before_second_leg final_wsol
    enforce initial_wsol final_wsol min_profit_lamports initial_target (x.target_balance sold)
    ok (record {
      ledger = sold;
      accounts = record accounts {
        user_wsol_amount = final_wsol;
        user_target_amount = x.target_balance sold;
      };
      events =
          route_events pump_to_meteora accounts actual_target_delta second_leg_wsol_delta
            final_wsol;
    })

  -- `meteora_to_pump::execute`.
  unfoldable pub execute_meteora_to_pump :
      RouteAccounts → Ledger → List AccountInfo → ℕ → ℕ → Result ArbError (Outcome Ledger)
  execute_meteora_to_pump accounts start bin_arrays wsol_amount_in min_profit_lamports = do
    let initial_wsol = accounts.user_wsol_amount
    let initial_target = accounts.user_target_amount
    bought ← x.swap2 user_wsol user_target bin_arrays wsol_amount_in 1 start
    actual_target_delta ← checked_increase initial_target (x.target_balance bought)
    let wsol_before_second_leg = x.wsol_balance bought
    required_out ← required_second_leg_out initial_wsol wsol_before_second_leg min_profit_lamports
    sold ← x.sell actual_target_delta required_out bought
    let final_wsol = x.wsol_balance sold
    second_leg_wsol_delta ← checked_increase wsol_before_second_leg final_wsol
    enforce initial_wsol final_wsol min_profit_lamports initial_target (x.target_balance sold)
    ok (record {
      ledger = sold;
      accounts = record accounts {
        user_wsol_amount = final_wsol;
        user_target_amount = x.target_balance sold;
      };
      events =
          route_events meteora_to_pump accounts actual_target_delta second_leg_wsol_delta
            final_wsol;
    })
