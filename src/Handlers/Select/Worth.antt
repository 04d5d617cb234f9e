-- ===== src/Handlers/Select/Worth.antt =====
-- What the selection of dynamic_amount.rs is worth.
use mathlib.Core.Path.{subst}
use sol_arb_executor.Prelude.{min, ◌≤◌, ◌<◌, ◌≡◌, refl, ap, ◌∙◌, arith, List, Bool, true, false}
use sol_arb_executor.Prelude.Int.{ℤ}
use sol_arb_executor.Errors.{ArbError, Result, ok, >>=-eq-ok, ok-injective}
use sol_arb_executor.Word.{u64_size}
use sol_arb_executor.Accounts.Types.{AccountInfo}
use sol_arb_executor.Dynamic.Types.{
  SelectedDirection, pump_to_meteora, meteora_to_pump, MarketState, DirectionSearch,
  DynamicSelection, DynamicDecision, selected, quote_incomplete, no_profitable_direction,
  DynamicSearchBounds,
}
use sol_arb_executor.Dynamic.Curve.{largest_complete_input}
use sol_arb_executor.Dynamic.Forward.{
  evaluate_forward, evaluate_reverse, pump_buy_amount_out, largest_forward_complete_amount,
}
use sol_arb_executor.Dynamic.Search.Chosen.{search_forward-BestIsWorth, search_reverse-BestIsWorth}
use sol_arb_executor.Dynamic.Decide.{directions_to_expand, decide_dynamic_search}
use sol_arb_executor.Dynamic.Decide.Choice.{Decides, decide_dynamic_search-Decides}
use sol_arb_executor.Validate.Platform.{Platform}
use sol_arb_executor.Adapters.PumpSwap.{cashback_sell_is_ready}
use sol_arb_executor.Handlers.Context.{ExecuteRoute, pump_accounts}
use sol_arb_executor.Handlers.Market.{parse_market}
use sol_arb_executor.Handlers.Select.{
  DlmmSource, or_u64_max, curve_up_to, probe_forward_direction, probe_reverse_direction,
  search_forward_direction, search_reverse_direction, no_search, selection_of, expanded,
  forward_source, reverse_source, select_dynamic,
}
use sol_arb_executor.Handlers.Select.OnCurve.{
  OnCurve, BestOnCurve, IsWorth-wider, BestIsWorth-some, probe_minimum-BestIsWorth,
}

module _ (source : DlmmSource) (market : MarketState) (bounds : DynamicSearchBounds)
    (pos : 0 < bounds.min_profit) (wide : bounds.min_amount ≤ bounds.max_amount) where
  abbrev at_minimum : DynamicSearchBounds
  at_minimum = record bounds { max_amount = bounds.min_amount }

  probe_forward-BestOnCurve :
      (s : DirectionSearch)
      → probe_forward_direction source market at_minimum ≡ ok s
      → BestOnCurve pump_to_meteora source market bounds s
  unfolding probe_forward_direction
  probe_forward-BestOnCurve s h c best =
      let limit = or_u64_max (pump_buy_amount_out market bounds.min_amount) in
      let (curve, built, h1) = >>=-eq-ok (curve_up_to source market limit) _ h in
      let largest = largest_forward_complete_amount market curve bounds.min_amount in
      (
        curve,
        limit,
        built,
        BestIsWorth-some
            (probe_minimum-BestIsWorth curve at_minimum largest bounds.max_amount
              (evaluate_forward market curve) (evaluate_forward market curve bounds.min_amount) refl
              pos wide)
            (ap (λ z. z.best) (ok-injective h1) ∙ best),
      )

  probe_reverse-BestOnCurve :
      (s : DirectionSearch)
      → probe_reverse_direction source market at_minimum ≡ ok s
      → BestOnCurve meteora_to_pump source market bounds s
  unfolding probe_reverse_direction
  probe_reverse-BestOnCurve s h c best =
      let (curve, built, h1) = >>=-eq-ok (curve_up_to source market bounds.min_amount) _ h in
      let largest = min bounds.min_amount (largest_complete_input curve) in
      (
        curve,
        bounds.min_amount,
        built,
        BestIsWorth-some
            (probe_minimum-BestIsWorth curve at_minimum largest bounds.max_amount
              (evaluate_reverse market curve) (evaluate_reverse market curve bounds.min_amount) refl
              pos wide)
            (ap (λ z. z.best) (ok-injective h1) ∙ best),
      )

  search_forward-BestOnCurve :
      (s : DirectionSearch)
      → bounds.max_amount < u64_size
      → search_forward_direction source market bounds ≡ ok s
      → BestOnCurve pump_to_meteora source market bounds s
  unfolding search_forward_direction
  search_forward-BestOnCurve s small h c best =
      let limit = or_u64_max (pump_buy_amount_out market bounds.max_amount) in
      let (curve, built, h1) = >>=-eq-ok (curve_up_to source market limit) _ h in
      (
        curve,
        limit,
        built,
        BestIsWorth-some
            (search_forward-BestIsWorth market curve bounds.min_amount bounds.max_amount
              bounds.min_profit small).0
            (ap (λ z. z.best) (ok-injective h1) ∙ best),
      )

  search_reverse-BestOnCurve :
      (s : DirectionSearch)
      → search_reverse_direction source market bounds ≡ ok s
      → BestOnCurve meteora_to_pump source market bounds s
  unfolding search_reverse_direction
  search_reverse-BestOnCurve s h c best =
      let (curve, built, h1) = >>=-eq-ok (curve_up_to source market bounds.max_amount) _ h in
      (
        curve,
        bounds.max_amount,
        built,
        IsWorth-wider (omega arith) (
            BestIsWorth-some
              (search_reverse-BestIsWorth market curve bounds.min_amount bounds.max_amount
                bounds.min_profit).0
              (ap (λ z. z.best) (ok-injective h1) ∙ best)),
      )

-- A search that is expanded or not.
expanded-BestOnCurve :
    (d : SelectedDirection) (source : DlmmSource) (market : MarketState)
    (bounds : DynamicSearchBounds) (b : Bool) (search : Result ArbError DirectionSearch)
    (minimum s : DirectionSearch)
    → ((t : DirectionSearch) → search ≡ ok t → BestOnCurve d source market bounds t)
    → BestOnCurve d source market bounds minimum
    → expanded b search minimum ≡ ok s
    → BestOnCurve d source market bounds s
expanded-BestOnCurve d source market bounds true search minimum s found least h = found s h
expanded-BestOnCurve d source market bounds false search minimum s found least h =
    λ c best. least c (ap (λ z. z.best) (ok-injective h) ∙ best)

-- The DLMM leg of a direction.
abbrev pub source_of :
    SelectedDirection → ExecuteRoute → List AccountInfo → ℤ → MarketState → DlmmSource
source_of pump_to_meteora = forward_source
source_of meteora_to_pump = reverse_source

no_search-BestOnCurve :
    (d : SelectedDirection) (source : DlmmSource) (market : MarketState)
    (bounds : DynamicSearchBounds)
    → BestOnCurve d source market bounds no_search
no_search-BestOnCurve d source market bounds c best = cc

selected-OnCurve :
    (forward reverse : DirectionSearch) (sources : SelectedDirection → DlmmSource)
    (market : MarketState) (bounds : DynamicSearchBounds) (decision : DynamicDecision)
    {selection : DynamicSelection}
    → Decides forward reverse decision
    → BestOnCurve pump_to_meteora (sources pump_to_meteora) market bounds forward
    → BestOnCurve meteora_to_pump (sources meteora_to_pump) market bounds reverse
    → selection_of forward reverse decision ≡ ok selection
    → OnCurve selection.direction (sources selection.direction) market bounds selection.choice
unfolding selection_of
selected-OnCurve forward reverse sources market bounds (selected pump_to_meteora c) sound f r h =
    subst (λ z. OnCurve z.direction (sources z.direction) market bounds z.choice) (ok-injective h)
      (f c sound.0)
selected-OnCurve forward reverse sources market bounds (selected meteora_to_pump c) sound f r h =
    subst (λ z. OnCurve z.direction (sources z.direction) market bounds z.choice) (ok-injective h)
      (r c sound.0)
selected-OnCurve forward reverse sources market bounds quote_incomplete sound f r h = cc
selected-OnCurve forward reverse sources market bounds no_profitable_direction sound f r h = cc

-- For a positive minimum profit and a range of u64 amounts, a selection is an amount of the range
-- for which both legs were quoted exactly, on the market that the accounts hold and a curve that was
-- built for its direction, and the quoted output exceeds the amount by the profit of the selection,
-- which is at least the minimum.
pub select_dynamic-OnCurve :
    {Ledger : Type 0} (p : Platform Ledger) (accounts : ExecuteRoute) (arrays : List AccountInfo)
    (bounds : DynamicSearchBounds) (timestamp : ℤ) {selection : DynamicSelection}
    → 0 < bounds.min_profit
    → bounds.min_amount ≤ bounds.max_amount
    → bounds.max_amount < u64_size
    → select_dynamic p accounts arrays bounds timestamp ≡ ok selection
    → (market : MarketState) × (parse_market p accounts ≡ ok market)
      × OnCurve selection.direction
          (source_of selection.direction accounts arrays timestamp market)
          market
          bounds
          selection.choice
unfolding select_dynamic
select_dynamic-OnCurve p accounts arrays bounds timestamp pos wide small h =
    let (market, parsed, h1) = >>=-eq-ok (parse_market p accounts) _ h in
    let f = forward_source accounts arrays timestamp market in
    let r = reverse_source accounts arrays timestamp market in
    let least = record bounds { max_amount = bounds.min_amount } in
    let (forward_minimum, probed, h2) = >>=-eq-ok (probe_forward_direction f market least) _ h1 in
    let (ready, _, h3) = >>=-eq-ok (cashback_sell_is_ready (pump_accounts accounts)) _ h2 in
    let (reverse_minimum, reprobed, h4) =
      >>=-eq-ok (expanded ready (probe_reverse_direction r market least) no_search) _ h3 in
    let expand =
      directions_to_expand forward_minimum reverse_minimum bounds.min_amount bounds.max_amount in
    let (forward, searched, h5) =
      >>=-eq-ok (expanded expand.0 (search_forward_direction f market bounds) forward_minimum) _
        h4 in
    let (reverse, researched, h6) =
      >>=-eq-ok (expanded expand.1 (search_reverse_direction r market bounds) reverse_minimum) _
        h5 in
    let forward_found =
      expanded-BestOnCurve pump_to_meteora f market bounds expand.0
        (search_forward_direction f market bounds) forward_minimum forward
        (λ t e. search_forward-BestOnCurve f market bounds pos wide t small e)
        (probe_forward-BestOnCurve f market bounds pos wide forward_minimum probed) searched in
    let reverse_least =
      expanded-BestOnCurve meteora_to_pump r market bounds ready
        (probe_reverse_direction r market least) no_search reverse_minimum
        (probe_reverse-BestOnCurve r market bounds pos wide)
        (no_search-BestOnCurve meteora_to_pump r market bounds) reprobed in
    let reverse_found =
      expanded-BestOnCurve meteora_to_pump r market bounds expand.1
        (search_reverse_direction r market bounds) reverse_minimum reverse
        (search_reverse-BestOnCurve r market bounds pos wide) reverse_least researched in
    (
      market,
      parsed,
      selected-OnCurve forward reverse (λ d. source_of d accounts arrays timestamp market) market
          bounds (decide_dynamic_search forward reverse)
          (decide_dynamic_search-Decides forward reverse) forward_found reverse_found h6,
    )
