-- ===== src/Dynamic/Search.antt =====
-- `search_forward` and `search_reverse` of dynamic_amount.rs, with the interior candidates: the
-- amounts that a direction is evaluated at.
pub mod Endpoints
pub mod Chosen
use sol_arb_executor.Prelude.{
  ℕ, ◌+◌, ◌-◌, ◌*◌, ◌/◌, min, List, [], ◌∷◌, Bool, ◌&&◌, ◌||◌, Option, none, some, ltb, leb, ◌==◌,
  if◌then◌else◌,
}
use sol_arb_executor.Errors.{QuoteError, Result}
use sol_arb_executor.Word.{u64_size, fits, checked_sub, checked_add_u128, checked_mul_u128}
use sol_arb_executor.Dynamic.Types.{
  CurveQuote, DlmmSegment, DlmmCurve, MarketState, DirectionSearch, input_capacity, output_capacity,
}
use sol_arb_executor.Dynamic.Curve.{largest_complete_input}
use sol_arb_executor.Dynamic.Candidates.{push_unique, push_neighborhood}
use sol_arb_executor.Dynamic.Evaluate.{evaluate_candidates, incomplete_direction}
use sol_arb_executor.Dynamic.Forward.{
  evaluate_forward, evaluate_reverse, largest_forward_complete_amount,
}
use sol_arb_executor.Dynamic.Boundary.{
  pump_fee_denominator, pump_total_fee_bps, div_ceil, pump_input_at_or_below_target_out,
}
use sol_arb_executor.Dynamic.Normalized.{
  ◌>>=◌, Normalized, normalized_product_ratio, sqrt_floor, sqrt_interval_definitely_excludes,
}

-- `if … { return None; }`.
abbrev refuse : Bool → Option (Unit {0})
refuse condition = if condition then none else some tt

unfoldable pub forward_interior_candidate : MarketState → DlmmSegment → ℕ → ℕ → Option ℕ
forward_interior_candidate market segment segment_start segment_end = do
  total_fee_bps ← pump_total_fee_bps market
  effective_quote_reserve ←
      checked_add_u128 market.pump_quote_reserve market.pump_virtual_quote_reserve
  fee_factor ← checked_add_u128 pump_fee_denominator total_fee_bps
  ratio ←
      normalized_product_ratio
        (output_capacity segment
          ∷ market.pump_base_reserve
          ∷ pump_fee_denominator
          ∷ effective_quote_reserve
          ∷ [])
        (input_capacity segment ∷ fee_factor ∷ [])
  start_scaled ← checked_mul_u128 segment_start pump_fee_denominator
  lower_root ← checked_add_u128 effective_quote_reserve (start_scaled / fee_factor)
  end_scaled ← checked_mul_u128 segment_end pump_fee_denominator
  end_net ← div_ceil end_scaled fee_factor
  upper_root ← checked_add_u128 effective_quote_reserve end_net
  _ ← refuse (sqrt_interval_definitely_excludes ratio lower_root upper_root)
  root ← sqrt_floor ratio
  _ ← refuse (leb root effective_quote_reserve)
  curve_input ← checked_sub root effective_quote_reserve
  scaled ← checked_mul_u128 curve_input fee_factor
  candidate ← fits u64_size (scaled / pump_fee_denominator)
  if ltb segment_start candidate && ltb candidate segment_end then some candidate else none

unfoldable pub reverse_interior_candidate : MarketState → DlmmSegment → Option ℕ
reverse_interior_candidate market segment = do
  total_fee_bps ← pump_total_fee_bps market
  _ ← refuse (leb pump_fee_denominator total_fee_bps)
  effective_quote_reserve ←
      checked_add_u128 market.pump_quote_reserve market.pump_virtual_quote_reserve
  after_fees ← checked_sub pump_fee_denominator total_fee_bps
  ratio ←
      normalized_product_ratio
        (output_capacity segment
          ∷ effective_quote_reserve
          ∷ market.pump_base_reserve
          ∷ after_fees
          ∷ [])
        (input_capacity segment ∷ pump_fee_denominator ∷ [])
  lower_root ← checked_add_u128 market.pump_base_reserve segment.output_start
  upper_root ← checked_add_u128 market.pump_base_reserve segment.output_end
  _ ← refuse (sqrt_interval_definitely_excludes ratio lower_root upper_root)
  root ← sqrt_floor ratio
  target_at_optimum ← checked_sub root market.pump_base_reserve
  _ ←
      refuse
        (leb target_at_optimum segment.output_start || leb segment.output_end target_at_optimum)
  target_delta ← checked_sub target_at_optimum segment.output_start
  scaled ← checked_mul_u128 target_delta (input_capacity segment)
  candidate ← checked_add_u128 segment.input_start (scaled / output_capacity segment)
  fits u64_size candidate

-- The mutable variables of both loops over the segments.
pub record Gathered : Type 0 where
  pub candidates : List ℕ
  pub boundary_candidates : ℕ
  pub interior_candidates : ℕ

abbrev pub count : ℕ → ℕ
count n = min (n + 1) 255

-- The first two candidates, before the loop.
abbrev pub endpoints : ℕ → ℕ → Gathered
endpoints min_amount largest = record {
  candidates = push_unique (push_unique [] min_amount) largest;
  boundary_candidates = 0;
  interior_candidates = 0;
}

-- The candidate at the end of a segment.
unfoldable pub gather_boundary : ℕ → ℕ → ℕ → Gathered → Gathered
gather_boundary min_amount largest segment_end g =
    if leb min_amount segment_end && leb segment_end largest
    then record g {
      candidates = push_unique g.candidates segment_end;
      boundary_candidates = count g.boundary_candidates;
    }
    else g

-- The candidates around an interior amount.
unfoldable pub gather_interior : ℕ → ℕ → Option ℕ → Gathered → Gathered
gather_interior min_amount largest none g = g
gather_interior min_amount largest (some interior) g =
    if leb min_amount interior && leb interior largest
    then record g {
      candidates = push_neighborhood g.candidates interior min_amount largest;
      interior_candidates = count g.interior_candidates;
    }
    else g

-- `segment_start`: one for the first segment, then the end of the segment before, if it is known.
unfoldable pub forward_start : MarketState → DlmmSegment → Option ℕ → Option ℕ
forward_start market segment previous = if segment.input_start == 0 then some 1 else elim previous [
  | some value ↦ some value
  | none ↦ pump_input_at_or_below_target_out market segment.input_start
]

-- The body for a segment whose two ends are known.
unfoldable pub gather_forward_at : MarketState → ℕ → ℕ → DlmmSegment → ℕ → ℕ → Gathered → Gathered
gather_forward_at market min_amount largest segment segment_start segment_end g =
    if ltb segment_end min_amount || ltb largest segment_start
    then g
    else gather_interior min_amount largest
        (forward_interior_candidate market segment segment_start segment_end)
        (gather_boundary min_amount largest segment_end g)

-- `for segment in curve.as_slice()` of the forward search, with `previous_segment_end_input`.
unfoldable pub gather_forward :
    MarketState → ℕ → ℕ → List DlmmSegment → Option ℕ → Gathered → Gathered
gather_forward market min_amount largest [] previous g = g
gather_forward market min_amount largest (segment ∷ segments) previous g =
    elim (forward_start market segment previous) [
      | none ↦ gather_forward market min_amount largest segments previous g
      | some segment_start ↦ elim (pump_input_at_or_below_target_out market segment.input_end) [
        | none ↦ gather_forward market min_amount largest segments previous g
        | some segment_end ↦
            gather_forward market min_amount largest segments (some segment_end)
              (gather_forward_at market min_amount largest segment segment_start segment_end g)
      ]
    ]

-- The evaluation at the end of both searches.
abbrev pub evaluate_gathered :
    DlmmCurve → ℕ → ℕ → ℕ → (ℕ → Result QuoteError CurveQuote) → Gathered → DirectionSearch
evaluate_gathered curve min_amount min_profit largest evaluate g =
    evaluate_candidates g.candidates
      (record {
        min_amount = min_amount;
        min_profit = min_profit;
        largest_complete_amount = largest;
        visited_bins = curve.visited_bins;
        boundary_candidates = g.boundary_candidates;
        interior_candidates = g.interior_candidates;
        curve_stop_reason = curve.stop_reason;
      })
      evaluate

unfoldable pub search_forward : MarketState → DlmmCurve → ℕ → ℕ → ℕ → DirectionSearch
search_forward market curve min_amount max_amount min_profit =
    let largest = largest_forward_complete_amount market curve max_amount in
    if ltb largest min_amount
    then incomplete_direction curve largest
    else evaluate_gathered curve min_amount min_profit largest (evaluate_forward market curve) (
        gather_forward market min_amount largest curve.segments none (endpoints min_amount largest))

-- The body of the reverse loop.
unfoldable pub gather_reverse_at : MarketState → ℕ → ℕ → DlmmSegment → Gathered → Gathered
gather_reverse_at market min_amount largest segment g =
    if ltb segment.input_end min_amount || ltb largest segment.input_start
    then g
    else gather_interior min_amount largest (reverse_interior_candidate market segment)
        (gather_boundary min_amount largest segment.input_end g)

unfoldable pub gather_reverse : MarketState → ℕ → ℕ → List DlmmSegment → Gathered → Gathered
gather_reverse market min_amount largest [] g = g
gather_reverse market min_amount largest (segment ∷ segments) g =
    gather_reverse market min_amount largest segments
      (gather_reverse_at market min_amount largest segment g)

unfoldable pub search_reverse : MarketState → DlmmCurve → ℕ → ℕ → ℕ → DirectionSearch
search_reverse market curve min_amount max_amount min_profit =
    let largest = min max_amount (largest_complete_input curve) in
    if ltb largest min_amount
    then incomplete_direction curve largest
    else evaluate_gathered curve min_amount min_profit largest (evaluate_reverse market curve)
        (gather_reverse market min_amount largest curve.segments (endpoints min_amount largest))
