-- ===== src/Dynamic/Search/Chosen.antt =====
-- What the choice of a direction's search is worth, whatever the candidates were.
use sol_arb_executor.Prelude.{
  ℕ, ◌-◌, ◌⊎◌, ◌+◌, ◌≤◌, ◌<◌, ◌≡◌, arith, Bool-cases, inl, inr, List, Option, none, some, ltb, min,
}
use sol_arb_executor.Errors.{QuoteError, Result, ok}
use sol_arb_executor.Word.{u64_size}
use sol_arb_executor.Dynamic.Types.{
  CurveQuote, DlmmCurve, MarketState, DirectionChoice, CandidateEvaluationContext,
}
use sol_arb_executor.Dynamic.Curve.{largest_complete_input}
use sol_arb_executor.Dynamic.Evaluate.{incomplete_direction}
use sol_arb_executor.Dynamic.Evaluate.Best.{
  HonestBest, AtLeast, Occurs, evaluate_candidates-AtLeast, evaluate_candidates-HonestBest,
}
use sol_arb_executor.Dynamic.Search.Endpoints.{
  endpoints-Occurs, gather_forward-Occurs, gather_reverse-Occurs,
}
use sol_arb_executor.Dynamic.Forward.{
  evaluate_forward, evaluate_reverse, largest_forward_complete_amount,
}
use sol_arb_executor.Dynamic.Forward.Largest.{largest_forward_complete_amount-le}
use sol_arb_executor.Dynamic.Search.{
  Gathered, gather_forward, gather_reverse, endpoints, evaluate_gathered, search_forward,
  search_reverse,
}

-- A choice is an amount of the range with its own quote, and its profit is at least the minimum.
pub record IsWorth (evaluate : ℕ → Result QuoteError CurveQuote)
    (min_amount max_amount min_profit : ℕ) (c : DirectionChoice) : Type 0 where
  pub above_min : min_amount ≤ c.amount_in
  pub below_max : c.amount_in ≤ max_amount
  pub quoted :
      evaluate c.amount_in
      ≡ ok (record { amount_out = c.amount_out; used_indices = c.used_indices })
  pub profit_exact : c.amount_in + c.profit ≡ c.amount_out
  pub profit_enough : min_profit ≤ c.profit

abbrev pub BestIsWorth :
    (ℕ → Result QuoteError CurveQuote) → ℕ → ℕ → ℕ → Option DirectionChoice → Type 0
BestIsWorth evaluate lo hi profit none = Unit {0}
BestIsWorth evaluate lo hi profit (some c) = IsWorth evaluate lo hi profit c

-- An honest best choice for a bound below the maximum.
honest-BestIsWorth :
    (context : CandidateEvaluationContext) (evaluate : ℕ → Result QuoteError CurveQuote)
    (candidates : List ℕ) (max_amount : ℕ) (best : Option DirectionChoice)
    → context.largest_complete_amount ≤ max_amount
    → HonestBest context evaluate candidates best
    → BestIsWorth evaluate context.min_amount max_amount context.min_profit best
honest-BestIsWorth context evaluate candidates max_amount none le h = tt
honest-BestIsWorth context evaluate candidates max_amount (some c) le h = record {
  above_min = h.above_min;
  below_max = omega (arith, h.covered);
  quoted = h.quoted;
  profit_exact = h.profit_exact;
  profit_enough = h.profit_enough;
}

gathered-BestIsWorth :
    (curve : DlmmCurve) (lo profit largest hi : ℕ) (evaluate : ℕ → Result QuoteError CurveQuote)
    (g : Gathered)
    → largest ≤ hi
    → BestIsWorth evaluate lo hi profit (evaluate_gathered curve lo profit largest evaluate g).best
gathered-BestIsWorth curve lo profit largest hi evaluate g le =
    honest-BestIsWorth _ evaluate g.candidates hi _ le
      (evaluate_candidates-HonestBest g.candidates _ evaluate)

-- An endpoint of the range that can be quoted with the minimum profit is matched by the best choice.
abbrev pub BeatsEndpoints :
    (ℕ → Result QuoteError CurveQuote) → ℕ → ℕ → ℕ → Option DirectionChoice → Type 0
BeatsEndpoints evaluate lo largest profit best =
    (a : ℕ) (q : CurveQuote)
    → 0 < a
    → (a ≡ lo) ⊎ (a ≡ largest)
    → lo ≤ largest
    → evaluate a ≡ ok q
    → a + profit ≤ q.amount_out
    → AtLeast best (q.amount_out - a) a

gathered-AtLeast :
    (curve : DlmmCurve) (lo profit largest : ℕ) (evaluate : ℕ → Result QuoteError CurveQuote)
    (g : Gathered) (a : ℕ) {q : CurveQuote}
    → Occurs a g.candidates
    → (a ≡ lo) ⊎ (a ≡ largest)
    → lo ≤ largest
    → evaluate a ≡ ok q
    → a + profit ≤ q.amount_out
    → AtLeast (evaluate_gathered curve lo profit largest evaluate g).best (q.amount_out - a) a
gathered-AtLeast curve lo profit largest evaluate g a here which range quoted worth =
    evaluate_candidates-AtLeast g.candidates _ evaluate a here (ground arith) (ground arith) quoted
      worth

-- Pump to Meteora: for a maximum that is a u64, whatever candidates were gathered, the best choice
-- is an amount from the minimum to the maximum, its output is the exact quote of both legs, and that
-- is the amount and at least the minimum profit. And wherever the minimum amount is not above the
-- largest complete one and one of the two is positive and gains the minimum profit by its exact
-- quote, there is a best choice with a larger profit, or with the same for an input no larger.
pub search_forward-BestIsWorth :
    (market : MarketState) (curve : DlmmCurve) (lo hi profit : ℕ)
    → hi < u64_size
    → BestIsWorth
        (evaluate_forward market curve)
        lo
        hi
        profit
        (search_forward market curve lo hi profit).best
      × BeatsEndpoints
          (evaluate_forward market curve)
          lo
          (largest_forward_complete_amount market curve hi)
          profit
          (search_forward market curve lo hi profit).best
unfolding search_forward incomplete_direction
search_forward-BestIsWorth market curve lo hi profit small =
    let largest = largest_forward_complete_amount market curve hi in
    let first = gather_forward market lo largest curve.segments none (endpoints lo largest) in
    elim (Bool-cases (ltb largest lo)) [
      | inl nothing ↦ rw nothing (tt, λ a q pos which range quoted worth. absurd (ground arith))
      | inr something ↦ rw something (
        gathered-BestIsWorth curve lo profit largest hi (evaluate_forward market curve) first
            (largest_forward_complete_amount-le market curve hi small),
        λ a q pos which range quoted worth.
            gathered-AtLeast curve lo profit largest (evaluate_forward market curve) first a
              (gather_forward-Occurs lo largest a market curve.segments none _
                (endpoints-Occurs lo largest a pos which))
              which range quoted worth,
      )
    ]

-- Meteora to Pump: whatever candidates were gathered, the best choice is an amount from the minimum
-- to the maximum and within the curve, its output is the exact quote of both legs, and that is the
-- amount and at least the minimum profit. And wherever the minimum amount is not above the largest
-- input of the curve below the maximum and one of the two is positive and gains the minimum profit
-- by its exact quote, there is a best choice with a larger profit, or with the same for an input no
-- larger.
pub search_reverse-BestIsWorth :
    (market : MarketState) (curve : DlmmCurve) (lo hi profit : ℕ)
    → BestIsWorth
        (evaluate_reverse market curve)
        lo
        (min hi (largest_complete_input curve))
        profit
        (search_reverse market curve lo hi profit).best
      × BeatsEndpoints
          (evaluate_reverse market curve)
          lo
          (min hi (largest_complete_input curve))
          profit
          (search_reverse market curve lo hi profit).best
unfolding search_reverse incomplete_direction
search_reverse-BestIsWorth market curve lo hi profit =
    let largest = min hi (largest_complete_input curve) in
    let first = gather_reverse market lo largest curve.segments (endpoints lo largest) in
    elim (Bool-cases (ltb largest lo)) [
      | inl nothing ↦ rw nothing (tt, λ a q pos which range quoted worth. absurd (ground arith))
      | inr something ↦ rw something (
        gathered-BestIsWorth curve lo profit largest largest (evaluate_reverse market curve) first
            (omega arith),
        λ a q pos which range quoted worth.
            gathered-AtLeast curve lo profit largest (evaluate_reverse market curve) first a
              (gather_reverse-Occurs lo largest a market curve.segments _
                (endpoints-Occurs lo largest a pos which))
              which range quoted worth,
      )
    ]
