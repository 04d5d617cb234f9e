-- ===== src/Quote/Pump/Bounds.antt =====
-- `pump_buy_exact_quote_in` of quote/math.rs: its bounds, the product of the pool, and how the
-- output moves with the input, on which the search of dynamic_amount.rs relies.
use native.Mathlib.Nat.{mul-le-mul, le-div_iff_mul-le}
use sol_arb_executor.Prelude.{ℕ, suc, ◌+◌, ◌-◌, ◌*◌, ◌≤◌, ◌<◌, ◌≡◌, refl, arith}
use sol_arb_executor.Errors.{ok}
use sol_arb_executor.Word.{u64_size}
use sol_arb_executor.Quote.Types.{QuoteResult}
use sol_arb_executor.Quote.Pump.{pump_buy_exact_quote_in}
use sol_arb_executor.Quote.Pump.Curve.{
  curve_out, curve_out-lt, curve_product, curve_out_mono, curve_out_strict,
}
use sol_arb_executor.Quote.Pump.Fees.{
  gross_quote, net_quote, net_quote-le, gross_quote-le-net_quote, net_quote-le-gross_quote,
  gross_quote-le,
}
use sol_arb_executor.Quote.Pump.Buy.{
  AreRates, AreReserves, buy_quote, pump_buy_exact_quote_in-eq, pump_buy_exact_quote_in-eq-ok,
}

-- For an input and reserves that are u64s, the real reserves not empty, and rates that are u16s, a
-- successful buy quote charges less than its input, never empties the base reserve, and what the
-- pool holds afterwards (the curve takes one unit less than the input net of fees) has a product
-- no smaller than before.
pub pump_buy_exact_quote_in_bounds :
    (q b r v lp p c : ℕ) {z : QuoteResult}
    → q < u64_size
    → AreRates lp p c
    → AreReserves b r v
    → pump_buy_exact_quote_in q b r v lp p c ≡ ok z
    → (z.amount_in ≡ q)
      × (z.fee < q)
      × (z.amount_out < b)
      × (b * (r + v) ≤ (b - z.amount_out) * (r + v + (q - z.fee - 1)))
pump_buy_exact_quote_in_bounds q b r v lp p c small rates reserves done =
    let (pos, e) = pump_buy_exact_quote_in-eq-ok q b r v lp p c small rates reserves done in
    rw e (
      refl,
      omega (arith, net_quote-le q lp p c),
      curve_out-lt b (r + v) (net_quote q lp p c - 1) reserves.base_pos
          (omega (arith, reserves.quote_pos)),
      rw same (curve_product b (r + v) (net_quote q lp p c - 1)),
    )
  where
    same : q - (q - net_quote q lp p c) - 1 ≡ net_quote q lp p c - 1
    same = omega (arith, net_quote-le q lp p c)

-- Two units after fees make up for the rounding.
pub net_quote_mono :
    (q s lp p c : ℕ)
    → q * 10_000 + 2 * (10_000 + (lp + p + c)) ≤ s * 10_000
    → net_quote q lp p c ≤ net_quote s lp p c
net_quote_mono q s lp p c h =
    omega (arith, net_quote-le-gross_quote q lp p c, gross_quote-le-net_quote s lp p c, wider)
  where
    wider : gross_quote q lp p c + 2 ≤ gross_quote s lp p c
    wider = (le-div_iff_mul-le (omega arith)).1 (omega (arith, gross_quote-le q lp p c))

-- For inputs and reserves that are u64s, the real reserves not empty, and rates that are u16s, the
-- output of a buy does not fall when the input grows by two units and the fees on them, both quotes
-- given.
pub pump_buy_exact_quote_in_mono :
    (q s b r v lp p c : ℕ) {y z : QuoteResult}
    → s < u64_size
    → AreRates lp p c
    → AreReserves b r v
    → q * 10_000 + 2 * (10_000 + (lp + p + c)) ≤ s * 10_000
    → pump_buy_exact_quote_in q b r v lp p c ≡ ok y
    → pump_buy_exact_quote_in s b r v lp p c ≡ ok z
    → y.amount_out ≤ z.amount_out
pump_buy_exact_quote_in_mono q s b r v lp p c small rates reserves gap first second =
    let (_, e) = pump_buy_exact_quote_in-eq-ok q b r v lp p c (omega arith) rates reserves first in
    let (_, f) = pump_buy_exact_quote_in-eq-ok s b r v lp p c small rates reserves second in
    rw (e, f)
      (curve_out_mono b (r + v) _ _ (omega (arith, reserves.quote_pos))
        (omega (arith, net_quote_mono q s lp p c gap)))

-- With the rates 20, 5 and 5 an input of 10030 k reaches the curve as 10000 k, and two units more
-- reach it as one unit less: all three fees round up.
net_quote-exact : (k : ℕ) → net_quote (10_030 * k) 20 5 5 ≡ 10_000 * k
net_quote-exact k = omega arith

net_quote-two_more : (k : ℕ) → 1 ≤ k → net_quote (10_030 * k + 2) 20 5 5 ≡ 10_000 * k - 1
net_quote-two_more k h = omega arith

-- The output is not monotone in the input: at the rates 20, 5 and 5, for every positive k with
-- inputs that are u64s and for u64 reserves that are not empty, where the base reserve is large
-- beside the square of the quote side, both quotes at 10030 k and at two units more succeed and the
-- larger input buys less.
pub pump_buy_exact_quote_in_drop :
    (k b r v : ℕ)
    → 1 ≤ k
    → 10_030 * k + 2 < u64_size
    → AreReserves b r v
    → (r + v + 10_000 * k) * (r + v + 10_000 * k) ≤ b * (r + v)
    → (y z : QuoteResult) × (pump_buy_exact_quote_in (10_030 * k) b r v 20 5 5 ≡ ok y)
      × (pump_buy_exact_quote_in (10_030 * k + 2) b r v 20 5 5 ≡ ok z)
      × (z.amount_out < y.amount_out)
pump_buy_exact_quote_in_drop k b r v pos small reserves large = (
  buy_quote (10_030 * k) b r v 20 5 5,
  buy_quote (10_030 * k + 2) b r v 20 5 5,
  pump_buy_exact_quote_in-eq (10_030 * k) b r v 20 5 5 (omega arith) (omega arith) reserves
      (omega arith),
  pump_buy_exact_quote_in-eq (10_030 * k + 2) b r v 20 5 5 small (omega arith) reserves
      (omega arith),
  rw (net_quote-exact k, net_quote-two_more k pos)
      (drop (10_000 * k - 1 - 1) (10_000 * k - 1) (omega arith) (omega (arith, shrink))),
)
  where
    drop :
        (x y : ℕ)
        → y ≡ suc x
        → (r + v + suc x) * (r + v + x) ≤ b * (r + v)
        → curve_out b (r + v) x < curve_out b (r + v) y
    drop x y e h = rw e (curve_out_strict b (r + v) x (omega (arith, reserves.quote_pos)) h)

    shrink :
        (r + v + suc (10_000 * k - 1 - 1)) * (r + v + (10_000 * k - 1 - 1))
        ≤ (r + v + 10_000 * k) * (r + v + 10_000 * k)
    shrink = mul-le-mul (omega arith) (omega arith)
