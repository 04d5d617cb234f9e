-- ===== src/Quote/Dlmm/Fees.antt =====
-- The two fee conversions of the DLMM quotes, as numbers: `excluded_fee_amount` takes a fee off a
-- gross amount, `included_fee_amount` finds the gross amount for a net one.
use native.Mathlib.Nat.{mul-le-mul, mul-le-mul_right}
use native.Mathlib.Decide.{dec_lt}
use sol_arb_executor.Prelude.{ℕ, suc, ◌+◌, ◌-◌, ◌*◌, ◌≤◌, ◌<◌, ◌≡◌, ap, ◌∙◌, arith}
use sol_arb_executor.Errors.{ok}
use sol_arb_executor.Word.{u64_size, checked_sub_le, checked_mul_u128_lt}
use sol_arb_executor.Quote.Types.{fee_precision, max_fee_rate, DlmmFeeParameters}
use sol_arb_executor.Quote.Basic.{ceil_quot, ceil_div_lt, ceil_quot_bounds, to_u64_lt}
use sol_arb_executor.Quote.Dlmm.{excluded_fee_amount, included_fee_amount, dlmm_total_fee_rate}

-- The fee on a gross amount, and what is left.
abbrev pub fee_of : ℕ → ℕ → ℕ
fee_of amount rate = ceil_quot (amount * rate) fee_precision

abbrev pub net_of : ℕ → ℕ → ℕ
net_of amount rate = amount - fee_of amount rate

-- The gross amount for a net one.
abbrev pub gross_of : ℕ → ℕ → ℕ
gross_of amount rate = ceil_quot (amount * fee_precision) (fee_precision - rate)

-- A total fee rate is a tenth at most.
pub dlmm_total_fee_rate-le :
    (f : DlmmFeeParameters) {rate : ℕ} → dlmm_total_fee_rate f ≡ ok rate → rate ≤ max_fee_rate
unfolding dlmm_total_fee_rate
dlmm_total_fee_rate-le f done = ground arith

module _ (rate : ℕ) (small : rate ≤ max_fee_rate) where
  split : (a : ℕ) → a * rate + a * (fee_precision - rate) ≡ a * fee_precision
  split a = go (fee_precision - rate) (omega arith)
    where
      go : (d : ℕ) → rate + d ≡ fee_precision → a * rate + a * d ≡ a * fee_precision
      go d e = omega (arith, ap (λ (t : ℕ). a * t) e)

  pub fee_of-le : (a : ℕ) → fee_of a rate ≤ a
  fee_of-le a =
      omega
        (arith, mul-le-mul {n₁ = a} {m₁ = rate} {n₂ = a} {m₂ = max_fee_rate} (omega arith) small)

  -- The net amount is the gross one times `fee_precision - rate` over `fee_precision`, rounded down.
  pub net_of_bounds :
      (a : ℕ)
      → (net_of a rate * fee_precision ≤ a * (fee_precision - rate))
        × (a * (fee_precision - rate) < net_of a rate * fee_precision + fee_precision)
  net_of_bounds a =
      omega (arith, split a, fee_of-le a, ceil_quot_bounds (a * rate) fee_precision (omega arith))

  pub gross_of_bounds :
      (i : ℕ)
      → (i * fee_precision ≤ gross_of i rate * (fee_precision - rate))
        × (gross_of i rate * (fee_precision - rate) < i * fee_precision + (fee_precision - rate))
  gross_of_bounds i = ceil_quot_bounds (i * fee_precision) (fee_precision - rate) (omega arith)

  -- A gross amount below `gross_of i` leaves less than `i`.
  pub net_of-lt : (a i : ℕ) → a < gross_of i rate → net_of a rate < i
  net_of-lt a i h = omega (
    arith,
    net_of_bounds a,
    gross_of_bounds i,
    mul-le-mul_right {m = suc a} {n = gross_of i rate} (fee_precision - rate) h,
    grow,
  )
    where
      grow : suc a * (fee_precision - rate) ≡ a * (fee_precision - rate) + (fee_precision - rate)
      grow = grind arith

  -- `gross_of i` itself leaves `i`.
  pub net_of-gross_of : (i : ℕ) → net_of (gross_of i rate) rate ≡ i
  net_of-gross_of i = omega (arith, net_of_bounds (gross_of i rate), gross_of_bounds i)

  pub gross_of-le : (a i : ℕ) → i ≤ net_of a rate → gross_of i rate ≤ a
  gross_of-le a i h = elim (dec_lt a (gross_of i rate)) [
    | yes less ↦ absurd (omega (arith, net_of-lt a i less))
    | no more ↦ omega arith
  ]

  pub le-gross_of : (i : ℕ) → i ≤ gross_of i rate
  le-gross_of i = omega (arith, net_of-gross_of i)

  pub excluded_fee_amount-eq :
      (a : ℕ) → a < u64_size → excluded_fee_amount a rate ≡ ok (net_of a rate, fee_of a rate)
  unfolding excluded_fee_amount
  excluded_fee_amount-eq a fits = rw (
    checked_mul_u128_lt a rate (omega (arith, product)),
    ceil_div_lt (a * rate) fee_precision (omega arith) (omega (arith, product)),
    checked_sub_le a (fee_of a rate) (fee_of-le a),
    to_u64_lt (net_of a rate) (omega arith),
    to_u64_lt (fee_of a rate) (omega (arith, fee_of-le a)),
  )
    where
      product : a * rate ≤ u64_size * max_fee_rate
      product =
          mul-le-mul {n₁ = a} {m₁ = rate} {n₂ = u64_size} {m₂ = max_fee_rate} (omega arith) small

  pub included_fee_amount-eq :
      (i : ℕ)
      → gross_of i rate < u64_size
      → included_fee_amount i rate ≡ ok (gross_of i rate, gross_of i rate - i)
  unfolding included_fee_amount
  included_fee_amount-eq i fits = rw (
    checked_sub_le fee_precision rate (omega arith),
    checked_mul_u128_lt i fee_precision (omega (arith, le-gross_of i)),
    ceil_div_lt (i * fee_precision) (fee_precision - rate) (omega arith)
        (omega (arith, le-gross_of i)),
    to_u64_lt (gross_of i rate) fits,
    to_u64_lt (gross_of i rate - i) (omega arith),
  )

  -- At a rate of a tenth at most, adding the fee to an amount and taking it off again gives the
  -- amount back, and the two fees agree, whenever the amount with its fee is a u64.
  pub excluded_fee_amount-included_fee_amount :
      (i : ℕ)
      → gross_of i rate < u64_size
      → (g : ℕ) × (fee : ℕ) × (included_fee_amount i rate ≡ ok (g, fee))
        × (excluded_fee_amount g rate ≡ ok (i, fee))
  excluded_fee_amount-included_fee_amount i fits = (
    gross_of i rate,
    fee_of (gross_of i rate) rate,
    included_fee_amount-eq i fits ∙ ap (λ f. ok (gross_of i rate, f)) same,
    excluded_fee_amount-eq (gross_of i rate) fits
        ∙ ap (λ n. ok (n, fee_of (gross_of i rate) rate)) (net_of-gross_of i),
  )
    where
      same : gross_of i rate - i ≡ fee_of (gross_of i rate) rate
      same = omega (arith, net_of-gross_of i, fee_of-le (gross_of i rate))
