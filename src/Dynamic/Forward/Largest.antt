-- ===== src/Dynamic/Forward/Largest.antt =====
-- The binary search of `largest_forward_complete_amount` in dynamic_amount.rs.
use native.Mathlib.Decide.{dec_lt}
use sol_arb_executor.Prelude.{
  ℕ, zero, suc, ◌+◌, ◌-◌, ◌/◌, ◌^◌, ◌*◌, ◌≤◌, ◌<◌, ◌≡◌, ◌⊎◌, inl, inr, refl, arith, Bool, true,
  false, ltb, ltb→lt, leb→le, le→leb, Bool-cases, ◌==◌, ◌||◌,
}
use sol_arb_executor.Word.{u64_size}
use sol_arb_executor.Quote.Pump.Curve.{curve_out_mono}
use sol_arb_executor.Quote.Pump.Bounds.{net_quote_mono}
use sol_arb_executor.Dynamic.Types.{DlmmCurve, MarketState}
use sol_arb_executor.Dynamic.Curve.{largest_complete_input}
use sol_arb_executor.Dynamic.Forward.{
  Narrowed, evaluate_forward, is_ok, within_capacity, narrow, largest_forward_complete_amount,
}
use sol_arb_executor.Dynamic.Forward.Bought.{
  IsMarket, fee_factor, market_gross, market_gross_mono, market_net, market_out,
  pump_buy_amount_out-eq,
}

-- A point of the range where the test changes, at which the loop has ended: it holds there or there
-- is nothing below, and it fails just above or there is nothing above.
pub record Edge (test : ℕ → Bool) (max : ℕ) (n : Narrowed) : Type 0 where
  pub ended : n.ended ≡ true
  pub inside : n.lower ≤ max
  pub holds : (n.lower ≡ 0) ⊎ (test n.lower ≡ true)
  pub fails : (n.lower ≡ max) ⊎ (test (n.lower + 1) ≡ false)

module _ (test : ℕ → Bool) (max : ℕ) where
  -- The round that finds the range closed.
  narrow-closed :
      (fuel lower upper : ℕ)
      → ltb lower upper ≡ false
      → narrow (suc fuel) test lower upper ≡ record { lower = lower; ended = true }
  unfolding narrow
  narrow-closed fuel lower upper closed = rw closed

  closed-Edge :
      (fuel lower upper : ℕ)
      → upper ≡ lower
      → upper ≤ max
      → (lower ≡ 0) ⊎ (test lower ≡ true)
      → (upper ≡ max) ⊎ (test (upper + 1) ≡ false)
      → Edge test max (narrow (suc fuel) test lower upper)
  closed-Edge fuel lower upper same inside holds fails =
      let closed : ltb lower upper ≡ false = ground arith in
      rw (narrow-closed fuel lower upper closed)
        (record { ended = refl; inside = omega arith; holds = holds; fails = rw (← same) fails })

  -- Every round halves the range, and the one after them finds it closed.
  narrow-Edge :
      (rounds lower upper : ℕ)
      → upper < lower + 2 ^ rounds
      → lower ≤ upper
      → upper ≤ max
      → (lower ≡ 0) ⊎ (test lower ≡ true)
      → (upper ≡ max) ⊎ (test (upper + 1) ≡ false)
      → Edge test max (narrow (suc rounds) test lower upper)
  unfolding narrow
  narrow-Edge zero lower upper enough ordered inside holds fails =
      closed-Edge 0 lower upper (omega arith) inside holds fails
  narrow-Edge (suc rounds) lower upper enough ordered inside holds fails =
      let m = lower + (upper - lower + 1) / 2 in
      elim (Bool-cases (ltb lower upper)) [
        | inr closed ↦ closed-Edge (suc rounds) lower upper (ground arith) inside holds fails
        | inl open_range ↦
            let less : lower < upper = ltb→lt _ _ open_range in
            elim (Bool-cases (test m)) [
              | inl fit ↦
                  rw (open_range, fit)
                    (narrow-Edge rounds m upper (omega arith) (omega arith) inside (inr fit) fails)
              | inr unfit ↦
                  let back : m - 1 + 1 ≡ m = omega arith in
                  rw (open_range, unfit)
                    (narrow-Edge rounds lower (m - 1) (omega arith) (omega arith) (omega arith)
                      holds (inr (rw back unfit)))
            ]
      ]

  -- The search is not led below a run of amounts that pass, if the run starts in its lower half:
  -- every midpoint is inside the run or above it.
  narrow-reaches :
      (first last rounds lower upper : ℕ)
      → upper < lower + 2 ^ rounds
      → lower ≤ upper
      → 2 * first ≤ last + 1
      → last ≤ upper
      → (lower ≡ 0) ⊎ (first ≤ lower)
      → ((x : ℕ) → first ≤ x → x ≤ last → test x ≡ true)
      → last ≤ (narrow (suc rounds) test lower upper).lower
  unfolding narrow
  narrow-reaches first last zero lower upper enough ordered half inside above run =
      let closed : ltb lower upper ≡ false = ground arith in
      rw (narrow-closed 0 lower upper closed) (omega arith)
  narrow-reaches first last (suc rounds) lower upper enough ordered half inside above run =
      let m = lower + (upper - lower + 1) / 2 in
      elim (Bool-cases (ltb lower upper)) [
        | inr closed ↦ rw (narrow-closed (suc rounds) lower upper closed) (ground arith)
        | inl open_range ↦
            let less : lower < upper = ltb→lt _ _ open_range in
            let within : first ≤ m = ground arith in
            elim (Bool-cases (test m)) [
              | inl fit ↦
                  rw (open_range, fit)
                    (narrow-reaches first last rounds m upper (omega arith) (omega arith) half
                      inside (inr within) run)
              | inr unfit ↦
                  rw (open_range, unfit)
                    (narrow-reaches first last rounds lower (m - 1) (omega arith) (omega arith) half
                      (elim (dec_lt last m) [
                        | yes beyond ↦ omega arith
                        | no here ↦
                            let fit : test m ≡ true = run m within (omega arith) in cc (fit, unfit)
                      ])
                      above run)
            ]
      ]

abbrev fits_curve : MarketState → DlmmCurve → ℕ → Bool
fits_curve market curve = within_capacity market (largest_complete_input curve)

abbrev searched : MarketState → DlmmCurve → ℕ → Narrowed
searched market curve max = narrow 65 (fits_curve market curve) 0 max

searched-Edge :
    (market : MarketState) (curve : DlmmCurve) (max : ℕ)
    → max < u64_size
    → Edge (fits_curve market curve) max (searched market curve max)
searched-Edge market curve max small =
    narrow-Edge (fits_curve market curve) max 64 0 max (omega arith) (omega arith) (omega arith)
      (inl refl) (inl refl)

-- The result is never above the maximum.
pub largest_forward_complete_amount-le :
    (market : MarketState) (curve : DlmmCurve) (max : ℕ)
    → max < u64_size
    → largest_forward_complete_amount market curve max ≤ max
unfolding largest_forward_complete_amount
largest_forward_complete_amount-le market curve max small =
    elim (Bool-cases (is_ok (evaluate_forward market curve max))) [
      | inl whole ↦ rw whole (omega arith)
      | inr partial ↦ elim (Bool-cases ((largest_complete_input curve == 0) || (max == 0))) [
        | inl empty ↦ rw (partial, empty) (omega arith)
        | inr full ↦ rw (partial, full) (searched-Edge market curve max small).inside
      ]
    ]

-- Where the quotes are those of the closed form, a quote within a capacity is within it for every
-- smaller input by two units with their fees.
within_capacity-below :
    (market : MarketState) (capacity x y : ℕ)
    → IsMarket market
    → 3 ≤ market_gross market x
    → x * 10_000 + 2 * fee_factor market ≤ y * 10_000
    → y < u64_size
    → within_capacity market capacity y ≡ true
    → within_capacity market capacity x ≡ true
unfolding within_capacity
within_capacity-below market capacity x y valid big far small fit =
    let wide : 3 ≤ market_gross market y = market_gross_mono market x y big (omega arith) in
    let least = rw (within_capacity, pump_buy_amount_out-eq market y valid small wide) at fit in
    rw (within_capacity, pump_buy_amount_out-eq market x valid (omega arith) big)
      (le→leb _ _ (
        omega (
          arith,
          leb→le (market_out market y) capacity least,
          curve_out_mono market.pump_base_reserve
              (market.pump_quote_reserve + market.pump_virtual_quote_reserve)
              (market_net market x - 1) (market_net market y - 1)
              (omega (arith, valid.reserves.quote_pos))
              (omega (
                arith,
                net_quote_mono x y market.pump_fees.lp_fee_bps market.pump_fees.protocol_fee_bps
                    market.pump_fees.creator_fee_bps far,
              )),
        )))

-- The search has ended at an edge, and every amount that is two units with their fees below one whose
-- output fits the curve, and whose half leaves three units after fees, is reached.
pub record Reaches (market : MarketState) (curve : DlmmCurve) (max : ℕ) (n : Narrowed)
    : Type 0 where
  pub edge : Edge (fits_curve market curve) max n
  pub reaches :
      (x y : ℕ)
      → 3 ≤ market_gross market ((x + 1) / 2)
      → x * 10_000 + 2 * fee_factor market ≤ y * 10_000
      → y < u64_size
      → x ≤ max
      → fits_curve market curve y ≡ true
      → x ≤ n.lower

searched-Reaches :
    (market : MarketState) (curve : DlmmCurve) (max : ℕ)
    → IsMarket market
    → max < u64_size
    → Reaches market curve max (searched market curve max)
searched-Reaches market curve max valid small = record {
  edge = searched-Edge market curve max small;
  reaches = λ x y big far y_small inside fit.
      narrow-reaches (fits_curve market curve) max ((x + 1) / 2) x 64 0 max (omega arith)
        (omega arith) (omega arith) inside (inl refl)
        (λ z above below.
          within_capacity-below market (largest_complete_input curve) z y valid
            (market_gross_mono market ((x + 1) / 2) z big above) (omega arith) y_small fit);
}

-- What the search returns: the maximum where it can be quoted whole, zero where the curve or the
-- maximum is empty, and otherwise what the loop leaves.
abbrev pub IsLargest : MarketState → DlmmCurve → ℕ → ℕ → Type 0
IsLargest market curve max r =
    ((is_ok (evaluate_forward market curve max) ≡ true) × (r ≡ max))
    ⊎ ((is_ok (evaluate_forward market curve max) ≡ false)
        × (((((largest_complete_input curve == 0) || (max == 0)) ≡ true) × (r ≡ 0))
            ⊎ (Reaches market curve max (searched market curve max)
                × (r ≡ (searched market curve max).lower))))

-- For a maximum that is a u64 and a market with u16 rates and u64 reserves, the real ones not empty:
-- the result is the maximum where that can be quoted whole; else zero for an empty curve or maximum;
-- else what the loop leaves in `lower`, which has ended by its condition within the fuel. That amount
-- is at most the maximum and is zero or has a Pump output within the curve; it is the maximum, or
-- its successor has no Pump output within the curve (an output above it, or none). And it is the
-- largest up to the rounding of the fees: for every u64 y whose Pump output is within the curve, every
-- amount up to the maximum that lies two units with their fees or more below y, and half of
-- which leaves three units after fees, is no larger than it.
pub largest_forward_complete_amount-IsLargest :
    (market : MarketState) (curve : DlmmCurve) (max : ℕ)
    → IsMarket market
    → max < u64_size
    → IsLargest market curve max (largest_forward_complete_amount market curve max)
unfolding largest_forward_complete_amount
largest_forward_complete_amount-IsLargest market curve max valid small =
    elim (Bool-cases (is_ok (evaluate_forward market curve max))) [
      | inl whole ↦ rw whole (inl (refl, refl))
      | inr partial ↦ elim (Bool-cases ((largest_complete_input curve == 0) || (max == 0))) [
        | inl empty ↦ rw (partial, empty) (inr (refl, inl (refl, refl)))
        | inr full ↦
            rw (partial, full)
              (inr (refl, inr (searched-Reaches market curve max valid small, refl)))
      ]
    ]
