-- ===== src/Dynamic/Curve.antt =====
-- `DlmmCurve` of dynamic_amount.rs: the piecewise curve of one direction and its lookup.
pub mod Chain
pub mod Lookup
use sol_arb_executor.Prelude.{
  ℕ, zero, suc, ◌+◌, ◌-◌, ◌/◌, List, [], ◌∷◌, ◌++◌, none, some, length, get_elem?, get_last?, ltb,
  leb, ◌==◌, if◌then◌else◌,
}
use sol_arb_executor.Errors.{
  QuoteError, invalid_input, math_overflow, insufficient_liquidity, ArbError,
  best_direction_quote_incomplete, Result, ok, err, ◌>>=◌, ◌>>◌, ok_or, require,
}
use sol_arb_executor.Word.{checked_sub, checked_add_u64}
use sol_arb_executor.Quote.Dlmm.{dlmm_bin_output_within_capacity}
use sol_arb_executor.Accounts.Types.{max_quote_visited_bins_per_direction}
use sol_arb_executor.Dynamic.Types.{
  DlmmSegment, empty_segment, input_capacity, output_capacity, DlmmCurve, CurveQuote,
  visited_bin_limit_reached,
}

-- `DlmmCurve::new`, and what `clear` resets a curve to.
abbrev pub new_curve : DlmmCurve
new_curve = record { segments = []; visited_bins = 0; stop_reason = visited_bin_limit_reached }

unfoldable pub clear : DlmmCurve → DlmmCurve
clear curve = record curve {
  segments = [];
  visited_bins = 0;
  stop_reason = visited_bin_limit_reached;
}

unfoldable pub push : DlmmSegment → DlmmCurve → Result ArbError DlmmCurve
push segment curve = do
  require (ltb (length curve.segments) max_quote_visited_bins_per_direction)
      best_direction_quote_incomplete
  ok (record curve { segments = curve.segments ++ segment ∷ [] })

unfoldable pub largest_complete_input : DlmmCurve → ℕ
largest_complete_input curve = elim (get_last? curve.segments) [
  | none ↦ 0
  | some segment ↦ segment.input_end
]

-- `segments[midpoint]`, which the loop reads only inside the slice.
abbrev pub segment_at : List DlmmSegment → ℕ → DlmmSegment
segment_at [] i = empty_segment
segment_at (s ∷ ss) zero = s
segment_at (s ∷ ss) (suc i) = segment_at ss i

-- The `while lower < upper` of the lookup, on fuel: one round narrows the range.
unfoldable pub bisect : ℕ → List DlmmSegment → ℕ → ℕ → ℕ → ℕ
bisect zero segments amount_in lower upper = lower
bisect (suc fuel) segments amount_in lower upper =
    let midpoint = lower + (upper - lower) / 2 in
    let left = bisect fuel segments amount_in lower midpoint in
    let right = bisect fuel segments amount_in (midpoint + 1) upper in
    if ltb lower upper
    then (if leb amount_in (segment_at segments midpoint).input_end then left else right)
    else lower

-- The output for `amount_in` on the segment that covers it.
unfoldable pub quote_on_segment : ℕ → DlmmSegment → Result QuoteError CurveQuote
quote_on_segment amount_in segment = do
  remaining ← ok_or (checked_sub amount_in segment.input_start) math_overflow
  amount_out ← if remaining == 0 then ok segment.output_start else (do
    output ←
        dlmm_bin_output_within_capacity remaining (input_capacity segment) (output_capacity segment)
          segment.price_q64 segment.swap_for_y segment.fee_on_input segment.fee_rate
    ok_or (checked_add_u64 segment.output_start output) math_overflow)
  ok (record { amount_out = amount_out; used_indices = segment.used_indices })

unfoldable pub quote : DlmmCurve → ℕ → Result QuoteError CurveQuote
quote curve amount_in = if amount_in == 0 then err invalid_input else (do
  let segments = curve.segments
  let lower = bisect (length segments + 1) segments amount_in 0 (length segments)
  segment ← ok_or (get_elem? segments lower) insufficient_liquidity
  quote_on_segment amount_in segment)
