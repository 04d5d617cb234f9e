-- ===== src/Handlers/Select/OnCurve.antt =====
-- A choice that is worth it on a curve, and the probe at the minimum amount.
use mathlib.Core.Path.{subst}
use sol_arb_executor.Prelude.{
  ℕ, ◌-◌, ◌≤◌, ◌<◌, ◌≡◌, inl, inr, arith, Option, some, Bool-cases, ltb, leb, leb→le,
}
use sol_arb_executor.Errors.{QuoteError, Result, ok, err}
use sol_arb_executor.Dynamic.Types.{
  SelectedDirection, pump_to_meteora, meteora_to_pump, DlmmCurve, CurveQuote, MarketState,
  DirectionSearch, DynamicSearchBounds, DirectionChoice,
}
use sol_arb_executor.Dynamic.Evaluate.{incomplete_direction}
use sol_arb_executor.Dynamic.Forward.{evaluate_forward, evaluate_reverse}
use sol_arb_executor.Dynamic.Search.Chosen.{IsWorth, BestIsWorth}
use sol_arb_executor.Dynamic.Decide.{probe_minimum}
use sol_arb_executor.Handlers.Select.{DlmmSource, curve_up_to}

-- The quote of both legs of a direction.
abbrev pub evaluate_of :
    SelectedDirection → MarketState → DlmmCurve → ℕ → Result QuoteError CurveQuote
evaluate_of pump_to_meteora = evaluate_forward
evaluate_of meteora_to_pump = evaluate_reverse

-- A choice is worth it on a curve that was built for the direction.
abbrev pub OnCurve :
    SelectedDirection → DlmmSource → MarketState → DynamicSearchBounds → DirectionChoice → Type 0
OnCurve d source market bounds c =
    (curve : DlmmCurve) × (limit : ℕ) × (curve_up_to source market limit ≡ ok curve)
    × IsWorth (evaluate_of d market curve) bounds.min_amount bounds.max_amount bounds.min_profit c

-- The same, of the best choice of a search, if there is one.
abbrev pub BestOnCurve :
    SelectedDirection → DlmmSource → MarketState → DynamicSearchBounds → DirectionSearch → Type 0
BestOnCurve d source market bounds s =
    (c : DirectionChoice) → s.best ≡ some c → OnCurve d source market bounds c

pub IsWorth-wider :
    {evaluate : ℕ → Result QuoteError CurveQuote} {lo hi wider profit : ℕ} {c : DirectionChoice}
    → hi ≤ wider
    → IsWorth evaluate lo hi profit c
    → IsWorth evaluate lo wider profit c
IsWorth-wider le w = record {
  above_min = w.above_min;
  below_max = omega (arith, w.below_max);
  quoted = w.quoted;
  profit_exact = w.profit_exact;
  profit_enough = w.profit_enough;
}

pub BestIsWorth-some :
    {evaluate : ℕ → Result QuoteError CurveQuote} {lo hi profit : ℕ} {best : Option DirectionChoice}
    {c : DirectionChoice}
    → BestIsWorth evaluate lo hi profit best
    → best ≡ some c
    → IsWorth evaluate lo hi profit c
BestIsWorth-some {evaluate} {lo} {hi} {profit} w e = subst (BestIsWorth evaluate lo hi profit) e w

-- The probe, whose amount is the minimum.
pub probe_minimum-BestIsWorth :
    (curve : DlmmCurve) (bounds : DynamicSearchBounds) (largest hi : ℕ)
    (evaluate : ℕ → Result QuoteError CurveQuote) (evaluated : Result QuoteError CurveQuote)
    → evaluate bounds.min_amount ≡ evaluated
    → 0 < bounds.min_profit
    → bounds.min_amount ≤ hi
    → BestIsWorth evaluate bounds.min_amount hi bounds.min_profit
        (probe_minimum curve bounds largest evaluated).best
unfolding probe_minimum incomplete_direction
probe_minimum-BestIsWorth curve bounds largest hi evaluate (err e) at pos le =
    elim (Bool-cases (ltb largest bounds.min_amount)) [ inl a ↦ rw a tt | inr b ↦ rw b tt ]
probe_minimum-BestIsWorth curve bounds largest hi evaluate (ok q) at pos le =
    elim (Bool-cases (ltb largest bounds.min_amount)) [
      | inl a ↦ rw a tt
      | inr a ↦ elim (Bool-cases (leb bounds.min_profit (q.amount_out - bounds.min_amount))) [
        | inl b ↦
            rw (a, b)
              (record {
                above_min = omega arith;
                below_max = le;
                quoted = at;
                profit_exact = ground arith;
                profit_enough = leb→le _ _ b;
              })
        | inr b ↦ rw (a, b) tt
      ]
    ]
