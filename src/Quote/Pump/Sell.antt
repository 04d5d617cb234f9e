-- ===== src/Quote/Pump/Sell.antt =====
-- `pump_sell_base_in`: what a successful quote says, and when it succeeds.
use sol_arb_executor.Prelude.{
  ℕ, ◌+◌, ◌-◌, ◌*◌, ◌≤◌, ◌<◌, ◌≡◌, arith, ltb, if◌then◌else◌, ◌∙◌, sym, pos→==, ◌↔◌,
}
use sol_arb_executor.Errors.{
  QuoteError, Result, ok, err, ok_or, math_overflow, insufficient_liquidity, ◌>>=◌,
}
use sol_arb_executor.Word.{
  u16_size, u64_size, u128_size, checked_sub, checked_add_u128_lt, checked_mul_u128_lt,
}
use sol_arb_executor.Quote.Types.{QuoteResult}
use sol_arb_executor.Quote.Basic.{to_u64}
use sol_arb_executor.Quote.Pump.{pump_sell_base_in, and_then_add}
use sol_arb_executor.Quote.Pump.Curve.{curve_out, curve_out-le}
use sol_arb_executor.Quote.Pump.Fees.{mul-lt, fee_quot, fee_quot-lt, fee_for_lt}
use sol_arb_executor.Quote.Pump.Buy.{AreRates, AreReserves}

-- The three fees on the raw output.
abbrev pub fees_of : ℕ → ℕ → ℕ → ℕ → ℕ
fees_of raw lp protocol creator = fee_quot raw lp + fee_quot raw protocol + fee_quot raw creator

-- The checks at the end of the sell quote.
abbrev pub settle : ℕ → ℕ → ℕ → ℕ → ℕ → Result QuoteError QuoteResult
settle base_in quote raw lp_fee fee = do
  amount_out ← ok_or (checked_sub raw fee) math_overflow
  after_lp_fee ← ok_or (checked_sub raw lp_fee) math_overflow
  if ltb quote after_lp_fee then err insufficient_liquidity else (do
    out ← to_u64 amount_out
    charged ← to_u64 fee
    ok (record { amount_in = base_in; amount_out = out; fee = charged }))

settle-eq-ok :
    (x r raw lp fee : ℕ) {z : QuoteResult}
    → settle x r raw lp fee ≡ ok z
    → (z.amount_in ≡ x) × (z.fee ≡ fee) × (z.amount_out + fee ≡ raw) × (raw ≤ r + lp)
unfolding checked_sub to_u64
settle-eq-ok x r raw lp fee done = ground arith

settle-eq :
    (x r raw lp fee : ℕ)
    → raw < u64_size
    → lp ≤ fee
    → fee ≤ raw
    → raw ≤ r + lp
    → settle x r raw lp fee ≡ ok (record { amount_in = x; amount_out = raw - fee; fee = fee })
unfolding checked_sub to_u64
settle-eq x r raw lp fee small a b c = ground arith

module _ (x b r v lp p c : ℕ) (small : x < u64_size) (pos : 0 < x) (rates : AreRates lp p c)
    (reserves : AreReserves b r v) (fits : r + v < u64_size) where
  -- With a total quote reserve that fits u64, nothing overflows before the fees are taken off.
  pump_sell-open :
      pump_sell_base_in x b r v lp p c
      ≡ settle x r
          (curve_out (r + v) b x)
          (fee_quot (curve_out (r + v) b x) lp)
          (fees_of (curve_out (r + v) b x) lp p c)
  unfolding pump_sell_base_in and_then_add
  pump_sell-open = rw (
    pos→== x pos,
    pos→== b reserves.base_pos,
    pos→== r reserves.quote_pos,
    checked_add_u128_lt r v (omega arith),
    checked_mul_u128_lt (r + v) x product,
    checked_add_u128_lt b x (omega arith),
    fee_for_lt (curve_out (r + v) b x) lp raw_small rates.lp_small,
    fee_for_lt (curve_out (r + v) b x) p raw_small rates.protocol_small,
    fee_for_lt (curve_out (r + v) b x) c raw_small rates.creator_small,
    checked_add_u128_lt (fee_quot (curve_out (r + v) b x) lp) (fee_quot (curve_out (r + v) b x) p)
        (omega (arith, lp_fits, p_fits)),
    checked_add_u128_lt (fee_quot (curve_out (r + v) b x) lp + fee_quot (curve_out (r + v) b x) p)
        (fee_quot (curve_out (r + v) b x) c) (omega (arith, lp_fits, p_fits, c_fits)),
  )
    where
      raw_small : curve_out (r + v) b x < u64_size
      raw_small = omega (arith, curve_out-le (r + v) b x)

      product : (r + v) * x < u128_size
      product =
          mul-lt (r + v) x (u64_size - 1) (u64_size - 1) (omega arith) (omega arith) (omega arith)

      lp_fits : fee_quot (curve_out (r + v) b x) lp < u64_size * u16_size
      lp_fits = fee_quot-lt _ lp raw_small rates.lp_small

      p_fits : fee_quot (curve_out (r + v) b x) p < u64_size * u16_size
      p_fits = fee_quot-lt _ p raw_small rates.protocol_small

      c_fits : fee_quot (curve_out (r + v) b x) c < u64_size * u16_size
      c_fits = fee_quot-lt _ c raw_small rates.creator_small

  -- For a positive input and reserves that are u64s, the real reserves not empty, the two quote
  -- reserves together a u64, and rates that are
  -- u16s, a successful sell quote splits the constant-product output into what is paid and the three
  -- rounded-up fees, and what is paid with the fees is covered by the real quote reserve and the
  -- liquidity providers' fee, which stays in the pool.
  pub pump_sell_base_in-eq-ok :
      {z : QuoteResult}
      → pump_sell_base_in x b r v lp p c ≡ ok z
      → (z.amount_in ≡ x)
        × (z.fee ≡ fees_of (curve_out (r + v) b x) lp p c)
        × (z.amount_out + z.fee ≡ curve_out (r + v) b x)
        × (z.amount_out + z.fee ≤ r + fee_quot (curve_out (r + v) b x) lp)
  pump_sell_base_in-eq-ok done =
      let (i, f, o, l) = settle-eq-ok x r _ _ _ (sym pump_sell-open ∙ done) in
      (i, f, omega arith, omega arith)

  -- For a positive input and reserves that are u64s, the real reserves not empty, the two quote
  -- reserves together a u64, and rates that are
  -- u16s, the sell quote succeeds exactly when the fees fit into the constant-product output and the
  -- real quote reserve covers that output less the liquidity providers' fee.
  pub pump_sell_base_in-succeeds :
      ((z : QuoteResult) × (pump_sell_base_in x b r v lp p c ≡ ok z))
      ↔ (fees_of (curve_out (r + v) b x) lp p c ≤ curve_out (r + v) b x)
        × (curve_out (r + v) b x ≤ r + fee_quot (curve_out (r + v) b x) lp)
  pump_sell_base_in-succeeds = (needs, suffices)
    where
      needs :
          (z : QuoteResult) × (pump_sell_base_in x b r v lp p c ≡ ok z)
          → (fees_of (curve_out (r + v) b x) lp p c ≤ curve_out (r + v) b x)
            × (curve_out (r + v) b x ≤ r + fee_quot (curve_out (r + v) b x) lp)
      needs (z, done) =
          let (i, f, o, l) = settle-eq-ok x r _ _ _ (sym pump_sell-open ∙ done) in (omega arith, l)

      suffices :
          (fees_of (curve_out (r + v) b x) lp p c ≤ curve_out (r + v) b x)
            × (curve_out (r + v) b x ≤ r + fee_quot (curve_out (r + v) b x) lp)
          → (z : QuoteResult) × (pump_sell_base_in x b r v lp p c ≡ ok z)
      suffices (a, l) = (
        _,
        pump_sell-open
            ∙ settle-eq x r (curve_out (r + v) b x) _ _ (omega (arith, curve_out-le (r + v) b x))
                (omega arith) a l,
      )
