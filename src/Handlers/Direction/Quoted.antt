-- ===== src/Handlers/Direction/Quoted.antt =====
-- What `select_direction` of best_direction.rs selects.
use mathlib.Core.Path.{subst}
use sol_arb_executor.Prelude.{
  some-injective, ℕ, ◌+◌, ◌≤◌, ◌≡◌, refl, sym, ap, ◌∙◌, arith, List, Bool, true, false, not, Option,
  none, some, if◌then◌else◌,
}
use sol_arb_executor.Prelude.Int.{ℤ}
use sol_arb_executor.Errors.{
  ArbError, Result, ok, ok_and_then-eq-some, to_option-eq-some, arithmetic_overflow, ok_or,
  >>=-eq-ok, ok-injective,
}
use sol_arb_executor.Word.{checked_add_u64}
use sol_arb_executor.Accounts.Types.{AccountInfo}
use sol_arb_executor.Quote.Types.{QuoteResult}
use sol_arb_executor.Dynamic.Types.{
  SelectedDirection, pump_to_meteora, meteora_to_pump, MarketState,
}
use sol_arb_executor.Dynamic.Forward.{market_buy, market_sell}
use sol_arb_executor.Route.Direction.{AccountDataQuote, choose_direction, quote_dlmm_from_accounts}
use sol_arb_executor.Route.Direction.Chooses.{Reaches, Chooses, choose_direction-Chooses}
use sol_arb_executor.Validate.Platform.{Platform}
use sol_arb_executor.Adapters.PumpSwap.{cashback_sell_is_ready}
use sol_arb_executor.Handlers.Context.{ExecuteRoute, pump_accounts}
use sol_arb_executor.Handlers.Market.{bitmap_extension, parse_market}
use sol_arb_executor.Handlers.Direction.{
  forward_quote, reverse_quote, forward_output, reverse_output, used_by, select_direction,
}

-- Both legs of a direction are quoted: the first leg's output is the input of the second, whose
-- output is at least a bound, and the DLMM leg uses the bin arrays given.
abbrev pub IsQuoted :
    SelectedDirection
    → MarketState
    → List AccountInfo
    → Option (List ℕ)
    → ℕ
    → ℤ
    → ℕ
    → List ℤ
    → Type 0
IsQuoted pump_to_meteora market arrays extension amount timestamp bound used =
    (buy : QuoteResult) × (dlmm : AccountDataQuote) × (market_buy market amount ≡ ok buy)
    × (quote_dlmm_from_accounts buy.amount_out market.pair arrays extension market.target_is_x
          timestamp
        ≡ ok dlmm)
    × (bound ≤ dlmm.amount_out)
    × (dlmm.used_indices ≡ used)
IsQuoted meteora_to_pump market arrays extension amount timestamp bound used =
    (dlmm : AccountDataQuote) × (sell : QuoteResult) × (quote_dlmm_from_accounts amount market.pair
        arrays extension (not market.target_is_x) timestamp
      ≡ ok dlmm)
    × (market_sell market dlmm.amount_out ≡ ok sell)
    × (bound ≤ sell.amount_out)
    × (dlmm.used_indices ≡ used)

-- A sale on Pump needs its cashback accounts.
abbrev pub NeedsReady : SelectedDirection → Result ArbError Bool → Type 0
NeedsReady pump_to_meteora ready = Unit {0}
NeedsReady meteora_to_pump ready = ready ≡ ok true

module _ (market : MarketState) (arrays : List AccountInfo) (extension : Option (List ℕ))
    (amount : ℕ) (timestamp : ℤ) where
  forward_quote-IsQuoted :
      (q : AccountDataQuote) (bound : ℕ)
      → forward_quote market arrays extension amount timestamp ≡ some q
      → bound ≤ q.amount_out
      → IsQuoted pump_to_meteora market arrays extension amount timestamp bound q.used_indices
  unfolding forward_quote
  forward_quote-IsQuoted q bound h le =
      let (buy, bought, h1) = ok_and_then-eq-some (market_buy market amount) _ h in
      (
        buy,
        q,
        bought,
        to_option-eq-some
            (quote_dlmm_from_accounts buy.amount_out market.pair arrays extension market.target_is_x
              timestamp)
            h1,
        le,
        refl,
      )

  reverse_quote-IsQuoted :
      (q : ℕ × AccountDataQuote) (bound : ℕ)
      → reverse_quote market arrays extension amount timestamp ≡ some q
      → bound ≤ q.0
      → IsQuoted meteora_to_pump market arrays extension amount timestamp bound q.1.used_indices
  unfolding reverse_quote
  reverse_quote-IsQuoted q bound h le =
      let (dlmm, swapped, h1) =
        ok_and_then-eq-some
          (quote_dlmm_from_accounts amount market.pair arrays extension (not market.target_is_x)
            timestamp)
          _ h in
      let (sell, sold, h2) = ok_and_then-eq-some (market_sell market dlmm.amount_out) _ h1 in
      let same : (sell.amount_out, dlmm) ≡ q = some-injective h2 in
      (
        dlmm,
        sell,
        swapped,
        sold,
        subst (λ z. bound ≤ z.0) (sym same) le,
        ap (λ z. z.1.used_indices) same,
      )

-- The choice between two quotes.
reached-forward :
    (f : Option AccountDataQuote) (g : Option (ℕ × AccountDataQuote)) (bound : ℕ) (used : List ℤ)
    → Reaches bound (forward_output f)
    → used_by f g pump_to_meteora ≡ ok used
    → (q : AccountDataQuote) × (f ≡ some q) × (bound ≤ q.amount_out) × (q.used_indices ≡ used)
unfolding used_by
reached-forward none g bound used r h = elim r [ ]
reached-forward (some q) g bound used r h = (q, refl, r, ok-injective h)

reached-reverse :
    (f : Option AccountDataQuote) (g : Option (ℕ × AccountDataQuote)) (bound : ℕ) (used : List ℤ)
    → Reaches bound (reverse_output g)
    → used_by f g meteora_to_pump ≡ ok used
    → (q : ℕ × AccountDataQuote) × (g ≡ some q) × (bound ≤ q.0) × (q.1.used_indices ≡ used)
unfolding used_by
reached-reverse f none bound used r h = elim r [ ]
reached-reverse f (some q) bound used r h = (q, refl, r, ok-injective h)

-- Without readiness there is no reverse quote.
ready-Reaches :
    (ready : Bool) (g : Option (ℕ × AccountDataQuote)) (bound : ℕ)
    → Reaches bound (reverse_output (if ready then g else none))
    → ready ≡ true
ready-Reaches true g bound r = refl
ready-Reaches false g bound r = elim r [ ]

ready_quote :
    {ready : Bool} (g : Option (ℕ × AccountDataQuote))
    → ready ≡ true
    → (if ready then g else none) ≡ g
ready_quote g h = rw h refl

module _ (market : MarketState) (arrays : List AccountInfo) (extension : Option (List ℕ))
    (amount : ℕ) (timestamp : ℤ) (ready : Bool) (bound : ℕ) (used : List ℤ) where
  abbrev f : Option AccountDataQuote
  f = forward_quote market arrays extension amount timestamp

  abbrev g : Option (ℕ × AccountDataQuote)
  g = reverse_quote market arrays extension amount timestamp

  abbrev g_if_ready : Option (ℕ × AccountDataQuote)
  g_if_ready = if ready then g else none

  chosen-IsQuoted :
      (d : SelectedDirection)
      → choose_direction (forward_output f) (reverse_output g_if_ready) bound ≡ ok d
      → used_by f g_if_ready d ≡ ok used
      → IsQuoted d market arrays extension amount timestamp bound used × NeedsReady d (ok ready)
  chosen-IsQuoted pump_to_meteora chosen by =
      let choice =
        subst (Chooses (forward_output f) (reverse_output g_if_ready) bound) chosen
          (choose_direction-Chooses (forward_output f) (reverse_output g_if_ready) bound) in
      let (q, quoted, le, uses) = reached-forward f g_if_ready bound used choice.0 by in
      (
        subst (IsQuoted pump_to_meteora market arrays extension amount timestamp bound) uses
            (forward_quote-IsQuoted market arrays extension amount timestamp q bound quoted le),
        tt,
      )
  chosen-IsQuoted meteora_to_pump chosen by =
      let choice =
        subst (Chooses (forward_output f) (reverse_output g_if_ready) bound) chosen
          (choose_direction-Chooses (forward_output f) (reverse_output g_if_ready) bound) in
      let (q, quoted, le, uses) = reached-reverse f g_if_ready bound used choice.0 by in
      let is_ready = ready-Reaches ready g bound choice.0 in
      (
        subst (IsQuoted meteora_to_pump market arrays extension amount timestamp bound) uses (
            reverse_quote-IsQuoted market arrays extension amount timestamp q bound
              (sym (ready_quote g is_ready) ∙ quoted) le),
        ap ok is_ready,
      )

sum-eq :
    (a m : ℕ) {bound : ℕ}
    → ok_or (checked_add_u64 a m) arithmetic_overflow ≡ ok bound
    → bound ≡ a + m
unfolding checked_add_u64
sum-eq a m h = ground arith

-- A selection is a direction both of whose legs are quoted for an output of at least the amount and
-- the minimum profit, with the bin arrays that the quote uses; Meteora to Pump is only selected when
-- the cashback accounts of the sale are ready.
pub select_direction-IsQuoted :
    {Ledger : Type 0} (p : Platform Ledger) (accounts : ExecuteRoute) (arrays : List AccountInfo)
    (amount m : ℕ) (timestamp : ℤ) {chosen : SelectedDirection × List ℤ}
    → select_direction p accounts arrays amount m timestamp ≡ ok chosen
    → (market : MarketState) × (parse_market p accounts ≡ ok market)
      × IsQuoted chosen.0 market arrays
          (bitmap_extension accounts)
          amount
          timestamp
          (amount + m)
          chosen.1
      × NeedsReady chosen.0 (cashback_sell_is_ready (pump_accounts accounts))
unfolding select_direction
select_direction-IsQuoted p accounts arrays amount m timestamp h =
    let (market, parsed, h1) = >>=-eq-ok (parse_market p accounts) _ h in
    let (ready, is_ready, h2) = >>=-eq-ok (cashback_sell_is_ready (pump_accounts accounts)) _ h1 in
    let (bound, sum, h3) = >>=-eq-ok (ok_or (checked_add_u64 amount m) arithmetic_overflow) _ h2 in
    let ext = bitmap_extension accounts in
    let f = forward_quote market arrays ext amount timestamp in
    let g = if ready then reverse_quote market arrays ext amount timestamp else none in
    let (d, chosen_d, h4) =
      >>=-eq-ok (choose_direction (forward_output f) (reverse_output g) bound) _ h3 in
    let (used, by, h5) = >>=-eq-ok (used_by f g d) _ h4 in
    let (quoted, needs) =
      chosen-IsQuoted market arrays ext amount timestamp ready bound used d chosen_d by in
    let same = ok-injective h5 in
    (
      market,
      parsed,
      subst (λ z. IsQuoted z.0 market arrays ext amount timestamp (amount + m) z.1) same
          (subst (λ n. IsQuoted d market arrays ext amount timestamp n used) (sum-eq amount m sum)
            quoted),
      subst (λ z. NeedsReady z.0 (cashback_sell_is_ready (pump_accounts accounts))) same
          (subst (NeedsReady d) (sym is_ready) needs),
    )
