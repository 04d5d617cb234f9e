-- ===== src/Dynamic/Boundary/Below.antt =====
-- What `pump_input_at_or_below_target_out` of dynamic_amount.rs returns.
use native.Mathlib.Nat.{
  div-le_of_le-mul, div-mul-le_self, lt-mul-div-succ, div-lt_iff_lt-mul, le-div_iff_mul-le,
  mul-le-mul_right, mul-le-mul,
}
use sol_arb_executor.Prelude.{
  ℕ, zero, suc, false, leb, ◌+◌, ◌-◌, ◌*◌, ◌/◌, ◌≤◌, ◌<◌, ◌≡◌, ap, arith, some, pos→==, lt→ltb,
}
use sol_arb_executor.Word.{
  u64_size, checked_sub_le, checked_add_u64_lt, checked_add_u128_lt, checked_mul_u128_lt,
}
use sol_arb_executor.Quote.Basic.{ceil_quot, ceil_quot_bounds}
use sol_arb_executor.Quote.Pump.Curve.{curve_out}
use sol_arb_executor.Quote.Pump.Fees.{net_quote-le-gross_quote, gross_quote-le-net_quote}
use sol_arb_executor.Dynamic.Types.{MarketState}
use sol_arb_executor.Dynamic.Forward.{pump_buy_amount_out}
use sol_arb_executor.Dynamic.Forward.Bought.{
  IsMarket, fee_factor, market_gross, market_out, pump_buy_amount_out-eq,
}
use sol_arb_executor.Dynamic.Boundary.{
  div_ceil, pump_total_fee_bps, boundary_gross, pump_input_at_or_below_target_out,
}

-- The first curve input whose output is the target.
first_input_below :
    (b q t d n : ℕ) → b ≡ t + d → 0 < q → n < ceil_quot (t * q) d → 0 < d → curve_out b q n < t
first_input_below b q t d n e pos h dpos = (div-lt_iff_lt-mul (omega arith)).1 (
    omega (
      arith,
      ap (λ (z : ℕ). z * n) e,
      ceil_quot_bounds (t * q) d dpos,
      mul-le-mul_right {m = n + 1} {n = ceil_quot (t * q) d} d (omega arith),
    ))

first_input_reaches :
    (b q t d n : ℕ) → b ≡ t + d → 0 < q → ceil_quot (t * q) d ≤ n → 0 < d → t ≤ curve_out b q n
first_input_reaches b q t d n e pos h dpos = (le-div_iff_mul-le (omega arith)).1 (
    omega (
      arith,
      ap (λ (z : ℕ). z * n) e,
      ceil_quot_bounds (t * q) d dpos,
      mul-le-mul_right {m = ceil_quot (t * q) d} {n = n} d h,
    ))

-- Fees put on an amount and taken off again, both rounded down, cost one unit at most.
taxed_le : (c f : ℕ) → 0 < f → c * f / 10_000 * 10_000 / f ≤ c
taxed_le c f pos = div-le_of_le-mul f (omega (arith, div-mul-le_self (c * f) 10_000))

taxed_ge : (c f : ℕ) → 10_000 ≤ f → c ≤ c * f / 10_000 * 10_000 / f + 1
taxed_ge zero f wide = omega arith
taxed_ge (suc c) f wide =
    let less : c ≤ suc c * f / 10_000 * 10_000 / f =
      (le-div_iff_mul-le (omega arith)).1
        (omega (arith, lt-mul-div-succ (suc c * f) {b = 10_000} (omega arith))) in
    omega (arith, less)

-- The least input of the curve that gives the target, and that input with the fees on it.
abbrev pub first_input : MarketState → ℕ → ℕ
first_input market target =
    ceil_quot (target * (market.pump_quote_reserve + market.pump_virtual_quote_reserve))
      (market.pump_base_reserve - target)

abbrev pub first_gross : MarketState → ℕ → ℕ
first_gross market target = first_input market target * fee_factor market / 10_000

-- An input whose output is below the target, and beyond which the target is reached: one unit and
-- three units with their fees make up for the roundings.
pub record IsNearest (market : MarketState) (target a : ℕ) : Type 0 where
  pub output : ℕ
  pub bought : pump_buy_amount_out market a ≡ some output
  pub below : output < target
  pub reaches :
      (x : ℕ)
      → x < u64_size
      → (a + 1) * 10_000 + 3 * fee_factor market ≤ x * 10_000
      → (y : ℕ) × (pump_buy_amount_out market x ≡ some y) × (target ≤ y)

module _ (market : MarketState) (target : ℕ) (valid : IsMarket market) (positive : 0 < target)
    (inside : target < market.pump_base_reserve)
    (sum_small : market.pump_quote_reserve + market.pump_virtual_quote_reserve < u64_size)
    (small : first_gross market target < u64_size) where
  boundary_gross-eq : boundary_gross market target ≡ some (first_gross market target)
  unfolding boundary_gross div_ceil pump_total_fee_bps
  boundary_gross-eq = rw (
    checked_add_u128_lt market.pump_quote_reserve market.pump_virtual_quote_reserve (omega arith),
    checked_mul_u128_lt target (market.pump_quote_reserve + market.pump_virtual_quote_reserve)
        (omega (arith, product)),
    checked_sub_le market.pump_base_reserve target (omega arith),
    pos→== (market.pump_base_reserve - target) (omega arith),
    checked_sub_le (market.pump_base_reserve - target) 1 (omega arith),
    checked_add_u128_lt (target * (market.pump_quote_reserve + market.pump_virtual_quote_reserve))
        (market.pump_base_reserve - target - 1) (omega (arith, product, valid.reserves.base_small)),
    checked_add_u64_lt market.pump_fees.lp_fee_bps market.pump_fees.protocol_fee_bps
        (omega (arith, valid.rates.lp_small, valid.rates.protocol_small)),
    checked_add_u64_lt (market.pump_fees.lp_fee_bps + market.pump_fees.protocol_fee_bps)
        market.pump_fees.creator_fee_bps
        (omega
          (arith, valid.rates.lp_small, valid.rates.protocol_small, valid.rates.creator_small)),
    checked_add_u128_lt 10_000
        (market.pump_fees.lp_fee_bps + market.pump_fees.protocol_fee_bps
          + market.pump_fees.creator_fee_bps)
        (omega
          (arith, valid.rates.lp_small, valid.rates.protocol_small, valid.rates.creator_small)),
    checked_mul_u128_lt (first_input market target) (fee_factor market) (
        omega (
          arith,
          lt-mul-div-succ (first_input market target * fee_factor market) {b = 10_000}
              (omega arith),
        )),
    lt→ltb (first_gross market target) u64_size small,
  )
    where
      product :
          target * (market.pump_quote_reserve + market.pump_virtual_quote_reserve)
          ≤ (u64_size - 1) * (u64_size - 1)
      product =
          mul-le-mul {n₁ = target}
            {m₁ = market.pump_quote_reserve + market.pump_virtual_quote_reserve} {n₂ = u64_size - 1}
            {m₂ = u64_size - 1} (omega (arith, valid.reserves.base_small)) (omega arith)

  -- The quote at the first input with its fees takes less than that input to the curve.
  first_gross-below :
      4 ≤ first_input market target → market_out market (first_gross market target) < target
  first_gross-below big =
      first_input_below market.pump_base_reserve
        (market.pump_quote_reserve + market.pump_virtual_quote_reserve) target
        (market.pump_base_reserve - target) _ (omega arith)
        (omega (arith, valid.reserves.quote_pos))
        (omega (
          arith,
          net_quote-le-gross_quote (first_gross market target) market.pump_fees.lp_fee_bps
              market.pump_fees.protocol_fee_bps market.pump_fees.creator_fee_bps,
          taxed_le (first_input market target) (fee_factor market) (omega arith),
        ))
        (omega arith)

  first_gross-reaches :
      (x : ℕ)
      → x < u64_size
      → (first_gross market target + 1) * 10_000 + 3 * fee_factor market ≤ x * 10_000
      → (output : ℕ) × (pump_buy_amount_out market x ≡ some output) × (target ≤ output)
  first_gross-reaches x x_small far = (
    market_out market x,
    pump_buy_amount_out-eq market x valid x_small (omega (arith, wide)),
    first_input_reaches market.pump_base_reserve
        (market.pump_quote_reserve + market.pump_virtual_quote_reserve) target
        (market.pump_base_reserve - target) _ (omega arith)
        (omega (arith, valid.reserves.quote_pos))
        (omega (
          arith,
          wide,
          gross_quote-le-net_quote x market.pump_fees.lp_fee_bps market.pump_fees.protocol_fee_bps
              market.pump_fees.creator_fee_bps,
        ))
        (omega arith),
  )
    where
      wide : first_input market target + 3 ≤ market_gross market x
      wide = (le-div_iff_mul-le (omega arith)).1 (
          omega (
            arith,
            lt-mul-div-succ (first_input market target * fee_factor market) {b = 10_000}
                (omega arith),
          ))

  -- For a market with u16 rates and u64 reserves, the real ones not empty and the two quote reserves
  -- together a u64, and a positive target inside the base reserve: when the least curve input that
  -- gives the target is four or more, and with the fees on it, rounded down, a u64, then that is
  -- the input returned. The guard on its quote never refuses it: its output is below the
  -- target, and every u64 input that is one unit and three units with their fees above it, or more,
  -- reaches the target.
  pub pump_input_at_or_below_target_out-IsNearest :
      4 ≤ first_input market target
      → (pump_input_at_or_below_target_out market target ≡ some (first_gross market target))
        × IsNearest market target (first_gross market target)
  unfolding pump_input_at_or_below_target_out
  pump_input_at_or_below_target_out-IsNearest big = (
    rw (
      pos→== target positive,
      outside,
      boundary_gross-eq,
      pos→== (first_gross market target) (omega (arith, room)),
      quoted,
      lt→ltb (market_out market (first_gross market target)) target (first_gross-below big),
    ),
    record {
      output = _;
      bought = quoted;
      below = first_gross-below big;
      reaches = first_gross-reaches;
    },
  )
    where
      outside : leb market.pump_base_reserve target ≡ false
      outside = ground arith

      room : 3 ≤ market_gross market (first_gross market target)
      room = omega (arith, taxed_ge (first_input market target) (fee_factor market) (omega arith))

      quoted :
          pump_buy_amount_out market (first_gross market target)
          ≡ some (market_out market (first_gross market target))
      quoted = pump_buy_amount_out-eq market (first_gross market target) valid small room
