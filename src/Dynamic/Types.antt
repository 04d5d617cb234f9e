-- ===== src/Dynamic/Types.antt =====
-- programs/sol-arb-executor/src/instructions/dynamic_amount.rs: the records of the search.
-- A fixed array with its `len` is the list of the entries in use: no code reads past `len`.
use sol_arb_executor.Prelude.{ℕ, ◌+◌, ◌-◌, ◌*◌, Bool, false, List, [], Option}
use sol_arb_executor.Prelude.Int.{ℤ}
use sol_arb_executor.Accounts.Types.{PumpFees, LbPairState, max_quote_visited_bins_per_direction}

pub data SelectedDirection : Type 0 where
  pump_to_meteora meteora_to_pump : SelectedDirection

pub record BestDirectionDynamicArgs : Type 0 where
  pub min_wsol_amount_in : ℕ
  pub max_wsol_amount_in : ℕ
  pub min_profit_lamports : ℕ

pub record DlmmSegment : Type 0 where
  pub input_start : ℕ
  pub input_end : ℕ
  pub output_start : ℕ
  pub output_end : ℕ
  pub price_q64 : ℕ
  pub fee_rate : ℕ
  pub swap_for_y : Bool
  pub fee_on_input : Bool
  pub used_indices : List ℤ

-- `DlmmSegment::EMPTY`.
abbrev pub empty_segment : DlmmSegment
empty_segment = record {
  input_start = 0;
  input_end = 0;
  output_start = 0;
  output_end = 0;
  price_q64 = 0;
  fee_rate = 0;
  swap_for_y = false;
  fee_on_input = false;
  used_indices = [];
}

unfoldable pub input_capacity : DlmmSegment → ℕ
input_capacity s = s.input_end - s.input_start

unfoldable pub output_capacity : DlmmSegment → ℕ
output_capacity s = s.output_end - s.output_start

pub data CurveStopReason : Type 0 where
  input_limit_reached missing_bin_array bin_array_limit_reached : CurveStopReason
  visited_bin_limit_reached no_usable_liquidity : CurveStopReason

pub record DlmmCurve : Type 0 where
  pub segments : List DlmmSegment
  pub visited_bins : ℕ
  pub stop_reason : CurveStopReason

pub record CurveQuote : Type 0 where
  pub amount_out : ℕ
  pub used_indices : List ℤ

pub record MarketState : Type 0 where
  pub pump_base_reserve : ℕ
  pub pump_quote_reserve : ℕ
  pub pump_virtual_quote_reserve : ℕ
  pub pump_fees : PumpFees
  pub pair : LbPairState
  pub target_is_x : Bool

pub record DirectionChoice : Type 0 where
  pub amount_in : ℕ
  pub amount_out : ℕ
  pub profit : ℕ
  pub used_indices : List ℤ

pub record DirectionSearch : Type 0 where
  pub best : Option DirectionChoice
  pub complete_seen : Bool
  pub minimum_quote_complete : Bool
  pub minimum_amount_out : ℕ
  pub largest_complete_amount : ℕ
  pub boundary_candidates : ℕ
  pub interior_candidates : ℕ
  pub visited_bins : ℕ
  pub curve_stop_reason : CurveStopReason

pub data DynamicDecision : Type 0 where
  selected : SelectedDirection → DirectionChoice → DynamicDecision
  quote_incomplete : DynamicDecision
  no_profitable_direction : DynamicDecision

pub record DynamicSelection : Type 0 where
  pub direction : SelectedDirection
  pub choice : DirectionChoice
  pub largest_complete_amount : ℕ
  pub boundary_candidates : ℕ
  pub interior_candidates : ℕ
  pub visited_bins : ℕ

pub record DynamicSearchBounds : Type 0 where
  pub min_amount : ℕ
  pub max_amount : ℕ
  pub min_profit : ℕ

pub record CandidateEvaluationContext : Type 0 where
  pub min_amount : ℕ
  pub min_profit : ℕ
  pub largest_complete_amount : ℕ
  pub visited_bins : ℕ
  pub boundary_candidates : ℕ
  pub interior_candidates : ℕ
  pub curve_stop_reason : CurveStopReason

abbrev pub max_dynamic_candidates : ℕ
max_dynamic_candidates = 2 + max_quote_visited_bins_per_direction * 4
