-- ===== src/Handlers/Select.antt =====
-- The selection of an amount and a direction: `select_dynamic` of dynamic_amount.rs with the probes
-- and searches of one direction.
pub mod OnCurve
pub mod Worth
use sol_arb_executor.Prelude.{
  ℕ, min, List, Bool, true, false, not, Option, none, some, if◌then◌else◌,
}
use sol_arb_executor.Prelude.Int.{ℤ}
use sol_arb_executor.Errors.{
  ArbError, best_direction_quote_incomplete, no_profitable_direction, Result, ok, err, ◌>>=◌,
}
use sol_arb_executor.Word.{u64_max}
use sol_arb_executor.Accounts.Types.{AccountInfo}
use sol_arb_executor.Dynamic.Types.{
  SelectedDirection, pump_to_meteora, meteora_to_pump, DlmmCurve, MarketState, DirectionSearch,
  DynamicSelection, DynamicDecision, selected, quote_incomplete, DynamicSearchBounds,
  no_usable_liquidity, DirectionChoice,
}
use sol_arb_executor.Dynamic.Types
use sol_arb_executor.Dynamic.Curve.{new_curve, largest_complete_input}
use sol_arb_executor.Dynamic.Build.{build_curve}
use sol_arb_executor.Dynamic.Forward.{
  evaluate_forward, evaluate_reverse, pump_buy_amount_out, largest_forward_complete_amount,
}
use sol_arb_executor.Dynamic.Search.{search_forward, search_reverse}
use sol_arb_executor.Dynamic.Decide.{probe_minimum, directions_to_expand, decide_dynamic_search}
use sol_arb_executor.Validate.Platform.{Platform}
use sol_arb_executor.Adapters.PumpSwap.{cashback_sell_is_ready}
use sol_arb_executor.Handlers.Context.{ExecuteRoute, pump_accounts}
use sol_arb_executor.Handlers.Market.{bitmap_extension, parse_market}

-- `option.unwrap_or(u64::MAX)`.
abbrev pub or_u64_max : Option ℕ → ℕ
or_u64_max none = u64_max
or_u64_max (some amount) = amount

-- What the functions of one direction are given: the bin arrays, the bitmap extension, the side and
-- the time.
pub record DlmmSource : Type 0 where
  pub arrays : List AccountInfo
  pub extension : Option (List ℕ)
  pub swap_for_y : Bool
  pub timestamp : ℤ

-- `DlmmCurve::new()` and `build_curve` up to a limit.
unfoldable pub curve_up_to : DlmmSource → MarketState → ℕ → Result ArbError DlmmCurve
curve_up_to source market limit =
    build_curve new_curve market.pair source.arrays source.extension source.swap_for_y
      source.timestamp limit

unfoldable pub probe_forward_direction :
    DlmmSource → MarketState → DynamicSearchBounds → Result ArbError DirectionSearch
probe_forward_direction source market bounds = do
  curve ← curve_up_to source market (or_u64_max (pump_buy_amount_out market bounds.min_amount))
  let largest = largest_forward_complete_amount market curve bounds.min_amount
  ok (probe_minimum curve bounds largest (evaluate_forward market curve bounds.min_amount))

unfoldable pub probe_reverse_direction :
    DlmmSource → MarketState → DynamicSearchBounds → Result ArbError DirectionSearch
probe_reverse_direction source market bounds = do
  curve ← curve_up_to source market bounds.min_amount
  let largest = min bounds.min_amount (largest_complete_input curve)
  ok (probe_minimum curve bounds largest (evaluate_reverse market curve bounds.min_amount))

unfoldable pub search_forward_direction :
    DlmmSource → MarketState → DynamicSearchBounds → Result ArbError DirectionSearch
search_forward_direction source market bounds = do
  curve ← curve_up_to source market (or_u64_max (pump_buy_amount_out market bounds.max_amount))
  ok (search_forward market curve bounds.min_amount bounds.max_amount bounds.min_profit)

unfoldable pub search_reverse_direction :
    DlmmSource → MarketState → DynamicSearchBounds → Result ArbError DirectionSearch
search_reverse_direction source market bounds = do
  curve ← curve_up_to source market bounds.max_amount
  ok (search_reverse market curve bounds.min_amount bounds.max_amount bounds.min_profit)

-- The search of a direction that is not ready.
abbrev pub no_search : DirectionSearch
no_search = record {
  best = none;
  complete_seen = false;
  minimum_quote_complete = false;
  minimum_amount_out = 0;
  largest_complete_amount = 0;
  boundary_candidates = 0;
  interior_candidates = 0;
  visited_bins = 0;
  curve_stop_reason = no_usable_liquidity;
}

-- The match on the decision, and the statistics of the chosen direction.
abbrev pub stats_of : SelectedDirection → DirectionSearch → DirectionSearch → DirectionSearch
stats_of pump_to_meteora forward reverse = forward
stats_of meteora_to_pump forward reverse = reverse

unfoldable pub selection_of :
    DirectionSearch → DirectionSearch → DynamicDecision → Result ArbError DynamicSelection
selection_of forward reverse (selected direction choice) =
    let stats = stats_of direction forward reverse in
    ok (record {
      direction = direction;
      choice = choice;
      largest_complete_amount = stats.largest_complete_amount;
      boundary_candidates = stats.boundary_candidates;
      interior_candidates = stats.interior_candidates;
      visited_bins = stats.visited_bins;
    })
selection_of forward reverse quote_incomplete = err best_direction_quote_incomplete
selection_of forward reverse Types.no_profitable_direction = err no_profitable_direction

-- A search of one direction, if it is to be expanded.
abbrev pub expanded :
    Bool → Result ArbError DirectionSearch → DirectionSearch → Result ArbError DirectionSearch
expanded expand search minimum = if expand then search else ok minimum

-- The sources of the two directions.
unfoldable pub forward_source : ExecuteRoute → List AccountInfo → ℤ → MarketState → DlmmSource
forward_source accounts arrays timestamp market = record {
  arrays = arrays;
  extension = bitmap_extension accounts;
  swap_for_y = market.target_is_x;
  timestamp = timestamp;
}

unfoldable pub reverse_source : ExecuteRoute → List AccountInfo → ℤ → MarketState → DlmmSource
reverse_source accounts arrays timestamp market = record {
  arrays = arrays;
  extension = bitmap_extension accounts;
  swap_for_y = not market.target_is_x;
  timestamp = timestamp;
}

unfoldable pub select_dynamic :
    {Ledger : Type 0}
    → Platform Ledger
    → ExecuteRoute
    → List AccountInfo
    → DynamicSearchBounds
    → ℤ
    → Result ArbError DynamicSelection
select_dynamic p accounts arrays bounds timestamp = do
  market ← parse_market p accounts
  let forward_side = forward_source accounts arrays timestamp market
  let reverse_side = reverse_source accounts arrays timestamp market
  let minimum_bounds = record bounds { max_amount = bounds.min_amount }
  forward_minimum ← probe_forward_direction forward_side market minimum_bounds
  cashback_ready ← cashback_sell_is_ready (pump_accounts accounts)
  reverse_minimum ←
      expanded cashback_ready (probe_reverse_direction reverse_side market minimum_bounds) no_search
  let expand =
      directions_to_expand forward_minimum reverse_minimum bounds.min_amount bounds.max_amount
  forward ← expanded expand.0 (search_forward_direction forward_side market bounds) forward_minimum
  reverse ← expanded expand.1 (search_reverse_direction reverse_side market bounds) reverse_minimum
  selection_of forward reverse (decide_dynamic_search forward reverse)
