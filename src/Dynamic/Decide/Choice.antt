-- ===== src/Dynamic/Decide/Choice.antt =====
-- What `decide_dynamic_search` and `probe_minimum` of dynamic_amount.rs decide.
use sol_arb_executor.Prelude.{
  ℕ, ◌+◌, ◌-◌, leb→le, ◌≤◌, ◌<◌, ◌≡◌, ◌⊎◌, inl, inr, refl, Option-cases, Bool-cases, true, false,
  Option, none, some, arith, ltb, leb,
}
use sol_arb_executor.Errors.{QuoteError, Result, ok, err}
use sol_arb_executor.Dynamic.Types.{
  SelectedDirection, pump_to_meteora, meteora_to_pump, DlmmCurve, CurveQuote, DirectionChoice,
  DirectionSearch, DynamicDecision, selected, quote_incomplete, no_profitable_direction,
  DynamicSearchBounds,
}
use sol_arb_executor.Dynamic.Evaluate.{better_choice, incomplete_direction}
use sol_arb_executor.Dynamic.Decide.{probe_minimum, decide_choices, decide_dynamic_search}

-- The search of a direction.
abbrev pub search_of : SelectedDirection → DirectionSearch → DirectionSearch → DirectionSearch
search_of pump_to_meteora forward reverse = forward
search_of meteora_to_pump forward reverse = reverse

-- No choice of a search beats the one given: a larger profit, or the same for less input.
abbrev pub NotBeaten : DirectionChoice → Option DirectionChoice → Type 0
NotBeaten c none = Unit {0}
NotBeaten c (some d) = (d.profit < c.profit) ⊎ ((d.profit ≡ c.profit) × (c.amount_in ≤ d.amount_in))

-- What each decision says of the two searches.
abbrev pub Decides : DirectionSearch → DirectionSearch → DynamicDecision → Type 0
Decides f r (selected d c) =
    ((search_of d f r).best ≡ some c) × NotBeaten c f.best × NotBeaten c r.best
Decides f r quote_incomplete =
    (f.best ≡ none)
    × (r.best ≡ none)
    × ((f.minimum_quote_complete ≡ false) ⊎ (r.minimum_quote_complete ≡ false))
Decides f r no_profitable_direction =
    (f.best ≡ none)
    × (r.best ≡ none)
    × (f.minimum_quote_complete ≡ true)
    × (r.minimum_quote_complete ≡ true)

better_choice-lt :
    (x y : DirectionChoice)
    → better_choice y x ≡ true
    → (x.profit < y.profit) ⊎ ((x.profit ≡ y.profit) × (y.amount_in ≤ x.amount_in))
unfolding better_choice
better_choice-lt x y h = ground arith

better_choice-ge :
    (x y : DirectionChoice)
    → better_choice y x ≡ false
    → (y.profit < x.profit) ⊎ ((y.profit ≡ x.profit) × (x.amount_in ≤ y.amount_in))
unfolding better_choice
better_choice-ge x y h = ground arith

-- The decision selects the best choice of the direction it names, which no choice of either search
-- beats; without any choice it is "no profit" when both minimum quotes are complete, and an
-- incomplete quote when one of them is not.
pub decide_dynamic_search-Decides :
    (f r : DirectionSearch) → Decides f r (decide_dynamic_search f r)
unfolding decide_dynamic_search decide_choices better_choice
decide_dynamic_search-Decides f r = elim (Option-cases f.best) [
  | inl p ↦ elim (Option-cases r.best) [
    | inl q ↦ elim (Bool-cases f.minimum_quote_complete) [
      | inl a ↦ elim (Bool-cases r.minimum_quote_complete) [
        | inl b ↦ rw (p, q, a, b) (refl, refl, refl, refl)
        | inr b ↦ rw (p, q, a, b) (refl, refl, inr refl)
      ]
      | inr a ↦ rw (p, q, a) (refl, refl, inl refl)
    ]
    | inr (y, q) ↦ rw (p, q) (refl, tt, inr (refl, omega arith))
  ]
  | inr (x, p) ↦ elim (Option-cases r.best) [
    | inl q ↦ rw (p, q) (refl, inr (refl, omega arith), tt)
    | inr (y, q) ↦ elim (Bool-cases (better_choice y x)) [
      | inl b ↦ rw (p, q, b) (refl, better_choice-lt x y b, inr (refl, omega arith))
      | inr b ↦ rw (p, q, b) (refl, inr (refl, omega arith), better_choice-ge x y b)
    ]
  ]
]

-- What a choice made at the minimum amounts to.
abbrev pub HonestProbe : DynamicSearchBounds → ℕ → Option DirectionChoice → Type 0
HonestProbe bounds largest none = Unit {0}
HonestProbe bounds largest (some c) =
    (c.amount_in ≡ bounds.min_amount)
    × (c.amount_in ≤ largest)
    × (c.amount_out ≡ c.amount_in + c.profit)
    × (bounds.min_profit ≤ c.profit)

-- With a positive minimum profit, the choice of the probe is the minimum amount, covered by the
-- curve, and its output is that amount and at least the minimum profit: the saturating subtraction
-- never turns a loss into a choice.
pub probe_minimum-HonestProbe :
    (curve : DlmmCurve) (bounds : DynamicSearchBounds) (largest : ℕ)
    (evaluated : Result QuoteError CurveQuote)
    → 0 < bounds.min_profit
    → HonestProbe bounds largest (probe_minimum curve bounds largest evaluated).best
unfolding probe_minimum incomplete_direction
probe_minimum-HonestProbe curve bounds largest (err e) pos =
    elim (Bool-cases (ltb largest bounds.min_amount)) [ inl a ↦ rw a tt | inr b ↦ rw b tt ]
probe_minimum-HonestProbe curve bounds largest (ok q) pos =
    elim (Bool-cases (ltb largest bounds.min_amount)) [
      | inl a ↦ rw a tt
      | inr a ↦ elim (Bool-cases (leb bounds.min_profit (q.amount_out - bounds.min_amount))) [
        | inl b ↦ rw (a, b) (refl, ground arith, ground arith, leb→le _ _ b)
        | inr b ↦ rw (a, b) tt
      ]
    ]
