-- ===== src/Dynamic/Forward/Bought.antt =====
-- The Pump quote of a market in closed form.
use native.Mathlib.Nat.{le-div_iff_mul-le}
use sol_arb_executor.Prelude.{ℕ, ◌+◌, ◌-◌, ◌*◌, ◌/◌, ◌≤◌, ◌<◌, ◌≡◌, refl, some, arith}
use sol_arb_executor.Word.{u64_size}
use sol_arb_executor.Quote.Pump.Curve.{curve_out}
use sol_arb_executor.Quote.Pump.Fees.{net_quote}
use sol_arb_executor.Quote.Pump.Buy.{AreRates, AreReserves, pump_buy_exact_quote_in-eq}
use sol_arb_executor.Dynamic.Types.{MarketState}
use sol_arb_executor.Dynamic.Forward.{pump_buy_amount_out}

-- The fee rates and reserves of a market have their widths, and its two real reserves are not empty.
pub record IsMarket (market : MarketState) : Type 0 where
  pub rates :
      AreRates market.pump_fees.lp_fee_bps market.pump_fees.protocol_fee_bps
        market.pump_fees.creator_fee_bps
  pub reserves :
      AreReserves market.pump_base_reserve market.pump_quote_reserve
        market.pump_virtual_quote_reserve

-- The denominator of the fee rates and their sum.
abbrev pub fee_factor : MarketState → ℕ
fee_factor market =
    10_000
    + (market.pump_fees.lp_fee_bps + market.pump_fees.protocol_fee_bps
        + market.pump_fees.creator_fee_bps)

abbrev pub market_net : MarketState → ℕ → ℕ
market_net market x =
    net_quote x market.pump_fees.lp_fee_bps market.pump_fees.protocol_fee_bps
      market.pump_fees.creator_fee_bps

abbrev pub market_gross : MarketState → ℕ → ℕ
market_gross market x = x * 10_000 / fee_factor market

pub market_gross_mono :
    (market : MarketState) (x y : ℕ) → 3 ≤ market_gross market x → x ≤ y → 3 ≤ market_gross market y
market_gross_mono market x y big le =
    let wide : 3 * fee_factor market ≤ x * 10_000 = (le-div_iff_mul-le (omega arith)).0 big in
    (le-div_iff_mul-le (omega arith)).1 (omega (arith, wide))

-- What the curve gives for an input.
abbrev pub market_out : MarketState → ℕ → ℕ
market_out market x =
    curve_out market.pump_base_reserve
      (market.pump_quote_reserve + market.pump_virtual_quote_reserve) (market_net market x - 1)

pub pump_buy_amount_out-eq :
    (market : MarketState) (x : ℕ)
    → IsMarket market
    → x < u64_size
    → 3 ≤ market_gross market x
    → pump_buy_amount_out market x ≡ some (market_out market x)
unfolding pump_buy_amount_out
pump_buy_amount_out-eq market x valid small big =
    rw
      (
        pump_buy_amount_out,
        pump_buy_exact_quote_in-eq x _ _ _ _ _ _ small valid.rates valid.reserves big,
      )
      refl
