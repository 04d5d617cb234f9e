-- ===== src/Dynamic/Evaluate.antt =====
-- `evaluate_candidates` of dynamic_amount.rs: the best of a list of candidate amounts.
pub mod Best
use sol_arb_executor.Prelude.{
  ℕ, List, [], ◌∷◌, Bool, true, false, ◌&&◌, ◌||◌, Option, none, some, ltb, leb, ◌==◌,
  if◌then◌else◌,
}
use sol_arb_executor.Errors.{QuoteError, Result, ok, err}
use sol_arb_executor.Word.{checked_sub}
use sol_arb_executor.Dynamic.Types.{
  CurveQuote, DlmmCurve, DirectionChoice, DirectionSearch, CandidateEvaluationContext,
}

unfoldable pub better_choice : DirectionChoice → DirectionChoice → Bool
better_choice candidate current =
    ltb current.profit candidate.profit
    || (candidate.profit == current.profit && ltb candidate.amount_in current.amount_in)

-- The mutable variables of the loop.
pub record Tally : Type 0 where
  pub best : Option DirectionChoice
  pub complete_seen : Bool
  pub minimum_quote_complete : Bool
  pub minimum_amount_out : ℕ

-- `if best.is_none_or(|current| better_choice(candidate, current)) { best = Some(candidate); }`
unfoldable pub keep_better : DirectionChoice → Option DirectionChoice → Option DirectionChoice
keep_better candidate none = some candidate
keep_better candidate (some current) =
    if better_choice candidate current then some candidate else some current

-- The part of the body that may replace the best choice.
unfoldable pub consider : ℕ → ℕ → CurveQuote → Option DirectionChoice → Option DirectionChoice
consider min_profit amount_in quote best = elim (checked_sub quote.amount_out amount_in) [
  | none ↦ best
  | some profit ↦
      if ltb profit min_profit
      then best
      else keep_better
          (record {
            amount_in = amount_in;
            amount_out = quote.amount_out;
            profit = profit;
            used_indices = quote.used_indices;
          })
          best
]

-- The body of the loop, for a candidate with its quote.
unfoldable pub tally_one :
    CandidateEvaluationContext → ℕ → Result QuoteError CurveQuote → Tally → Tally
tally_one context amount_in (err _) t = t
tally_one context amount_in (ok quote) t = record {
  best = consider context.min_profit amount_in quote t.best;
  complete_seen = true;
  minimum_quote_complete =
      if amount_in == context.min_amount then true else t.minimum_quote_complete;
  minimum_amount_out =
      if amount_in == context.min_amount then quote.amount_out else t.minimum_amount_out;
}

-- The filter of the iterator.
abbrev pub in_range : CandidateEvaluationContext → ℕ → Bool
in_range context amount =
    leb context.min_amount amount && leb amount context.largest_complete_amount

unfoldable pub tally_all :
    CandidateEvaluationContext → (ℕ → Result QuoteError CurveQuote) → List ℕ → Tally → Tally
tally_all context evaluate [] t = t
tally_all context evaluate (amount ∷ amounts) t =
    tally_all context evaluate amounts
      (if in_range context amount then tally_one context amount (evaluate amount) t else t)

abbrev pub no_tally : Tally
no_tally = record {
  best = none;
  complete_seen = false;
  minimum_quote_complete = false;
  minimum_amount_out = 0;
}

unfoldable pub evaluate_candidates :
    List ℕ → CandidateEvaluationContext → (ℕ → Result QuoteError CurveQuote) → DirectionSearch
evaluate_candidates candidates context evaluate =
    let t = tally_all context evaluate candidates no_tally in
    record {
      best = t.best;
      complete_seen = t.complete_seen;
      minimum_quote_complete = t.minimum_quote_complete;
      minimum_amount_out = t.minimum_amount_out;
      largest_complete_amount = context.largest_complete_amount;
      boundary_candidates = context.boundary_candidates;
      interior_candidates = context.interior_candidates;
      visited_bins = context.visited_bins;
      curve_stop_reason = context.curve_stop_reason;
    }

unfoldable pub incomplete_direction : DlmmCurve → ℕ → DirectionSearch
incomplete_direction curve largest_complete_amount = record {
  best = none;
  complete_seen = false;
  minimum_quote_complete = false;
  minimum_amount_out = 0;
  largest_complete_amount = largest_complete_amount;
  boundary_candidates = 0;
  interior_candidates = 0;
  visited_bins = curve.visited_bins;
  curve_stop_reason = curve.stop_reason;
}
