-- ===== src/Quote/Pump/Buy.antt =====
-- `pump_buy_exact_quote_in` of quote/math.rs in closed form.
use sol_arb_executor.Prelude.{
  ℕ, ◌+◌, ◌-◌, ◌*◌, ◌≤◌, ◌<◌, ◌≡◌, refl, arith, ltb, if◌then◌else◌, Bool-cases, inl, inr, leb,
  leb→le, pos→==, some, ◌∙◌, sym, ap, ◌==◌, true,
}
use sol_arb_executor.Errors.{
  ok, err, ok_or, math_overflow, invalid_input, ok-injective, >>=-eq-ok, ◌>>=◌,
}
use sol_arb_executor.Word.{
  u16_size, u64_size, u128_size, checked_sub_le, checked_add_u128_lt, checked_mul_u128_lt,
  checked_add_u128, checked_sub,
}
use sol_arb_executor.Quote.Types.{QuoteResult}
use sol_arb_executor.Quote.Basic.{to_u64_lt}
use sol_arb_executor.Quote.Pump.{
  and_then_add, fee_for, sum_bps, effective_quote_for, pump_buy_exact_quote_in, buy_on_curve,
}
use sol_arb_executor.Quote.Pump.Curve.{curve_out, curve_out-le}
use sol_arb_executor.Quote.Pump.Fees.{
  mul-lt, fee_quot, gross_quote, net_quote, with_fees, fee_for_lt, gross_quote-le, excess-le,
  net_quote-le, gross_quote-le-net_quote, fee_quot-lt,
}

-- The widths of the three fee rates, `u16` each.
pub record AreRates (lp protocol creator : ℕ) : Type 0 where
  pub lp_small : lp < u16_size
  pub protocol_small : protocol < u16_size
  pub creator_small : creator < u16_size

-- The reserves are `u64`s and the two real ones are not empty.
pub record AreReserves (base_reserve quote_reserve virtual : ℕ) : Type 0 where
  pub base_small : base_reserve < u64_size
  pub quote_small : quote_reserve < u64_size
  pub virtual_small : virtual < u64_size
  pub base_pos : 0 < base_reserve
  pub quote_pos : 0 < quote_reserve

correction-eq-ok :
    (q g t : ℕ) {e : ℕ}
    → (if ltb q t then ok_or (checked_sub g (t - q)) math_overflow else ok g) ≡ ok e
    → e ≡ g - (t - q)
unfolding checked_sub
correction-eq-ok q g t h = ground arith

module _ (q lp p c : ℕ) (small : q < u64_size) (rates : AreRates lp p c) where
  sum_bps_lt : sum_bps lp p c ≡ ok (lp + p + c)
  unfolding sum_bps
  sum_bps_lt =
      rw (checked_add_u128_lt lp p (omega arith), checked_add_u128_lt (lp + p) c (omega arith))

  gross_quote-small : gross_quote q lp p c ≤ q
  gross_quote-small = omega (arith, gross_quote-le q lp p c)

  total_with_fees_lt :
      (e : ℕ)
      → e < u64_size
      → and_then_add (and_then_add (checked_add_u128 e (fee_quot e lp)) (fee_for e p)) (fee_for e c)
        ≡ some (e + fee_quot e lp + fee_quot e p + fee_quot e c)
  unfolding and_then_add
  total_with_fees_lt e h =
      rw
        (
          checked_add_u128_lt e (fee_quot e lp) (omega (arith, lp_fits)),
          fee_for_lt e p h rates.protocol_small,
          checked_add_u128_lt (e + fee_quot e lp) (fee_quot e p) (omega (arith, lp_fits, p_fits)),
          fee_for_lt e c h rates.creator_small,
        )
        (checked_add_u128_lt (e + fee_quot e lp + fee_quot e p) (fee_quot e c)
          (omega (arith, lp_fits, p_fits, c_fits)))
    where
      lp_fits : fee_quot e lp < u64_size * u16_size
      lp_fits = fee_quot-lt e lp h rates.lp_small

      p_fits : fee_quot e p < u64_size * u16_size
      p_fits = fee_quot-lt e p h rates.protocol_small

      c_fits : fee_quot e c < u64_size * u16_size
      c_fits = fee_quot-lt e c h rates.creator_small

  correction :
      (e t : ℕ)
      → t ≤ e + q
      → (if ltb q t then ok_or (checked_sub e (t - q)) math_overflow else ok e) ≡ ok (e - (t - q))
  correction e t h = elim (Bool-cases (ltb q t)) [
    | inl over ↦ rw (over, checked_sub_le e (t - q) (omega arith))
    | inr under ↦ let same : e ≡ e - (t - q) = ground arith in rw under (ap ok same)
  ]

  -- Up to the correction no step can overflow.
  effective_quote_for-correction : effective_quote_for q lp p c ≡ (
      if ltb q (with_fees (gross_quote q lp p c) lp p c)
      then ok_or
          (checked_sub (gross_quote q lp p c) (with_fees (gross_quote q lp p c) lp p c - q))
          math_overflow
      else ok (gross_quote q lp p c))
  unfolding effective_quote_for
  effective_quote_for-correction = rw (
    sum_bps_lt,
    checked_mul_u128_lt q 10_000 (omega arith),
    fee_for_lt (gross_quote q lp p c) lp gross_fits rates.lp_small,
    total_with_fees_lt (gross_quote q lp p c) gross_fits,
  )
    where
      gross_fits : gross_quote q lp p c < u64_size
      gross_fits = omega (arith, gross_quote-small)

  -- With at least two units left before the correction, the checked code computes `net_quote`.
  pub effective_quote_for-eq :
      2 ≤ gross_quote q lp p c → effective_quote_for q lp p c ≡ ok (net_quote q lp p c)
  effective_quote_for-eq h =
      effective_quote_for-correction
      ∙ correction (gross_quote q lp p c) _ (omega (arith, excess-le q lp p c))

  -- Whenever it succeeds, the result is `net_quote`.
  pub effective_quote_for-eq-ok :
      {e : ℕ} → effective_quote_for q lp p c ≡ ok e → e ≡ net_quote q lp p c
  effective_quote_for-eq-ok h =
      correction-eq-ok q (gross_quote q lp p c) _ (sym effective_quote_for-correction ∙ h)

-- The quote as numbers.
abbrev pub buy_quote : ℕ → ℕ → ℕ → ℕ → ℕ → ℕ → ℕ → QuoteResult
buy_quote quote_in base quote virtual lp protocol creator =
    let net = net_quote quote_in lp protocol creator in
    record {
      amount_in = quote_in;
      amount_out = curve_out base (quote + virtual) (net - 1);
      fee = quote_in - net;
    }

buy_on_curve-zero : (q b r v : ℕ) → buy_on_curve q b r v 0 ≡ err invalid_input
unfolding buy_on_curve checked_sub
buy_on_curve-zero q b r v = refl

pump_buy-zero :
    (q b r v lp p c : ℕ)
    → (q == 0) ≡ true
    → pump_buy_exact_quote_in q b r v lp p c ≡ err invalid_input
unfolding pump_buy_exact_quote_in
pump_buy-zero q b r v lp p c h = rw h

module _ (q b r v lp p c : ℕ) (small : q < u64_size) (rates : AreRates lp p c)
    (reserves : AreReserves b r v) where
  buy_on_curve-eq :
      (e : ℕ)
      → 1 ≤ e
      → e ≤ q
      → buy_on_curve q b r v e
        ≡ ok (record { amount_in = q; amount_out = curve_out b (r + v) (e - 1); fee = q - e })
  unfolding buy_on_curve
  buy_on_curve-eq e pos le = rw (
    checked_sub_le e 1 pos,
    checked_add_u128_lt r v (omega arith),
    checked_mul_u128_lt b (e - 1) product,
    checked_add_u128_lt (r + v) (e - 1) (omega arith),
    to_u64_lt (curve_out b (r + v) (e - 1)) (omega (arith, curve_out-le b (r + v) (e - 1))),
    to_u64_lt (q - e) (omega arith),
  )
    where
      product : b * (e - 1) < u128_size
      product =
          mul-lt b (e - 1) (u64_size - 1) (u64_size - 1) (omega arith) (omega arith) (omega arith)

  pump_buy-open :
      0 < q
      → pump_buy_exact_quote_in q b r v lp p c
        ≡ (effective_quote_for q lp p c >>= λ e. buy_on_curve q b r v e)
  unfolding pump_buy_exact_quote_in
  pump_buy-open pos = rw (pos→== q pos, pos→== b reserves.base_pos, pos→== r reserves.quote_pos)

  -- For an input and reserves that are u64s, the real reserves not empty, and rates that are u16s,
  -- the quote succeeds with the closed form `buy_quote` when three units are left of the input
  -- before the correction for rounding.
  pub pump_buy_exact_quote_in-eq :
      3 ≤ gross_quote q lp p c
      → pump_buy_exact_quote_in q b r v lp p c ≡ ok (buy_quote q b r v lp p c)
  pump_buy_exact_quote_in-eq h =
      rw
        (
          pump_buy-open (omega (arith, gross_quote-small q lp p c small rates)),
          effective_quote_for-eq q lp p c small rates (omega arith),
        )
        (buy_on_curve-eq (net_quote q lp p c) (omega (arith, gross_quote-le-net_quote q lp p c))
          (net_quote-le q lp p c))

  buy_on_curve-eq-ok :
      (e : ℕ) {z : QuoteResult}
      → e ≤ q
      → buy_on_curve q b r v e ≡ ok z
      → (1 ≤ e)
        × (z ≡ record { amount_in = q; amount_out = curve_out b (r + v) (e - 1); fee = q - e })
  buy_on_curve-eq-ok e le done = elim (Bool-cases (leb 1 e)) [
    | inl pos ↦
        let one : 1 ≤ e = leb→le 1 e pos in
        (one, ok-injective (sym done ∙ buy_on_curve-eq e one le))
    | inr less ↦
        let none_left : e ≡ 0 = ground arith in cc (rw none_left at done, buy_on_curve-zero q b r v)
  ]

  -- A quote that succeeds is `buy_quote`.
  pub pump_buy_exact_quote_in-eq-ok :
      {z : QuoteResult}
      → pump_buy_exact_quote_in q b r v lp p c ≡ ok z
      → (1 ≤ net_quote q lp p c) × (z ≡ buy_quote q b r v lp p c)
  pump_buy_exact_quote_in-eq-ok done = elim (Bool-cases (q == 0)) [
    | inl empty ↦ cc (pump_buy-zero q b r v lp p c empty, done)
    | inr full ↦
        let (e, got, rest) =
          >>=-eq-ok (effective_quote_for q lp p c) _ (sym (pump_buy-open (ground arith)) ∙ done) in
        let same : e ≡ net_quote q lp p c = effective_quote_for-eq-ok q lp p c small rates got in
        buy_on_curve-eq-ok (net_quote q lp p c) (net_quote-le q lp p c) (rw same at rest)
  ]
