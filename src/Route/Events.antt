-- ===== src/Route/Events.antt =====
-- programs/sol-arb-executor/src/events.rs: the events of a route. A public key is its bytes.
use sol_arb_executor.Prelude.{ℕ, List, Bool}

pub data RouteDirection : Type 0 where
  pump_to_meteora meteora_to_pump : RouteDirection

pub record RouteStarted : Type 0 where
  pub direction : RouteDirection
  pub trader : List ℕ
  pub target_mint : List ℕ
  pub initial_wsol_balance : ℕ

pub record FirstLegCompleted : Type 0 where
  pub direction : RouteDirection
  pub actual_target_delta : ℕ

pub record SecondLegCompleted : Type 0 where
  pub direction : RouteDirection
  pub actual_wsol_delta : ℕ

pub record RouteCompleted : Type 0 where
  pub direction : RouteDirection
  pub trader : List ℕ
  pub target_mint : List ℕ
  pub initial_wsol_balance : ℕ
  pub final_wsol_balance : ℕ
  pub first_leg_target_delta : ℕ
  pub second_leg_wsol_delta : ℕ

pub record DynamicAmountSelected : Type 0 where
  pub direction : RouteDirection
  pub min_wsol_amount_in : ℕ
  pub max_wsol_amount_in : ℕ
  pub balance_limited_max : ℕ
  pub largest_complete_amount : ℕ
  pub actual_wsol_amount_in : ℕ
  pub expected_wsol_amount_out : ℕ
  pub expected_profit_lamports : ℕ
  pub visited_bins : ℕ
  pub boundary_candidates : ℕ
  pub interior_candidates : ℕ
  pub early_stop_used : Bool

-- What `emit!` appends to the log of the transaction.
pub data Event : Type 0 where
  route_started : RouteStarted → Event
  first_leg_completed : FirstLegCompleted → Event
  second_leg_completed : SecondLegCompleted → Event
  route_completed : RouteCompleted → Event
  dynamic_amount_selected : DynamicAmountSelected → Event
