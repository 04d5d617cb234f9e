-- ===== src/Dynamic/Decide.antt =====
-- The staged search of dynamic_amount.rs: the probe at the minimum, which directions to expand, and
-- the final decision.
pub mod Choice
use sol_arb_executor.Prelude.{
  ℕ, ◌-◌, Bool, true, false, ◌&&◌, Option, none, some, ltb, leb, ◌==◌, if◌then◌else◌,
}
use sol_arb_executor.Errors.{
  QuoteError, ArbError, invalid_dynamic_amount_range, Result, ok, err, require,
}
use sol_arb_executor.Dynamic.Types.{
  pump_to_meteora, meteora_to_pump, BestDirectionDynamicArgs, DlmmCurve, CurveQuote,
  DirectionChoice, DirectionSearch, DynamicDecision, selected, quote_incomplete,
  no_profitable_direction, DynamicSearchBounds,
}
use sol_arb_executor.Dynamic.Evaluate.{better_choice, incomplete_direction}

unfoldable pub validate_args : BestDirectionDynamicArgs → Result ArbError (Unit {0})
validate_args args =
    require
      (ltb 0 args.min_wsol_amount_in
        && leb args.min_wsol_amount_in args.max_wsol_amount_in
        && ltb 0 args.min_profit_lamports)
      invalid_dynamic_amount_range

-- `probe_minimum` with the value of its closure `evaluate`. It never fails.
unfoldable pub probe_minimum :
    DlmmCurve → DynamicSearchBounds → ℕ → Result QuoteError CurveQuote → DirectionSearch
probe_minimum curve bounds largest_complete_amount evaluated =
    if ltb largest_complete_amount bounds.min_amount
    then incomplete_direction curve largest_complete_amount
    else elim evaluated [
      | err _ ↦ incomplete_direction curve largest_complete_amount
      | ok quote ↦
          let profit = quote.amount_out - bounds.min_amount in
          record {
            best =
                if leb bounds.min_profit profit
                then some (record {
                  amount_in = bounds.min_amount;
                  amount_out = quote.amount_out;
                  profit = profit;
                  used_indices = quote.used_indices;
                })
                else none;
            complete_seen = true;
            minimum_quote_complete = true;
            minimum_amount_out = quote.amount_out;
            largest_complete_amount = largest_complete_amount;
            boundary_candidates = 0;
            interior_candidates = 0;
            visited_bins = curve.visited_bins;
            curve_stop_reason = curve.stop_reason;
          }
    ]

unfoldable pub directions_to_expand : DirectionSearch → DirectionSearch → ℕ → ℕ → Bool × Bool
directions_to_expand forward reverse min_amount max_amount =
    if max_amount == min_amount then (false, false) else (
      forward.minimum_quote_complete && ltb min_amount forward.minimum_amount_out,
      reverse.minimum_quote_complete && ltb min_amount reverse.minimum_amount_out,
    )

-- The match of `decide_dynamic_search` on the two best choices; `complete` is its guard.
unfoldable pub decide_choices :
    Option DirectionChoice → Option DirectionChoice → Bool → DynamicDecision
decide_choices (some forward_choice) (some reverse_choice) complete =
    if better_choice reverse_choice forward_choice
    then selected meteora_to_pump reverse_choice
    else selected pump_to_meteora forward_choice
decide_choices (some choice) none complete = selected pump_to_meteora choice
decide_choices none (some choice) complete = selected meteora_to_pump choice
decide_choices none none complete = if complete then no_profitable_direction else quote_incomplete

unfoldable pub decide_dynamic_search : DirectionSearch → DirectionSearch → DynamicDecision
decide_dynamic_search forward reverse =
    decide_choices forward.best reverse.best
      (forward.minimum_quote_complete && reverse.minimum_quote_complete)
