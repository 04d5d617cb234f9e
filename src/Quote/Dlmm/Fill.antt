-- ===== src/Quote/Dlmm/Fill.antt =====
-- What one bin contributes to a quote of quote/math.rs.
use sol_arb_executor.Prelude.{
  ℕ, ◌-◌, ◌≤◌, ◌<◌, ◌≡◌, arith, min, max, Bool, true, false, ◌==◌, Bool-cases, inl, inr,
  if◌then◌else◌,
}
use sol_arb_executor.Errors.{ok}
use sol_arb_executor.Word.{u64_size}
use sol_arb_executor.Quote.Types.{max_fee_rate}
use sol_arb_executor.Quote.Dlmm.{
  FillState, amount_in_for_out, amount_out_for_in, charge_bin, add_totals, fill_bin,
}
use sol_arb_executor.Quote.Dlmm.Fees.{
  fee_of-le, fee_of, net_of, gross_of, gross_of-le, excluded_fee_amount-eq, included_fee_amount-eq,
}

-- The input that is left after the fee, where the fee is on the input.
abbrev pub net_in : Bool → ℕ → ℕ → ℕ
net_in true rate amount = net_of amount rate
net_in false rate amount = amount

-- What is paid out of a raw output.
abbrev pub paid : Bool → ℕ → ℕ → ℕ
paid true rate out = out
paid false rate out = net_of out rate

-- The fee found when the input is taken apart, before the bin is known.
abbrev pub fee_full : Bool → ℕ → ℕ → ℕ
fee_full true rate amount = fee_of amount rate
fee_full false rate amount = 0

-- The fee where the input does not buy the whole bin and `out` comes out of the price.
abbrev pub fee_below : Bool → ℕ → ℕ → ℕ → ℕ
fee_below true rate amount out = fee_of amount rate
fee_below false rate amount out = fee_of out rate

-- The input and the fee where the whole bin is bought for the net input `i`.
abbrev pub used_above : Bool → ℕ → ℕ → ℕ → ℕ
used_above true rate amount i = if net_of amount rate == i then amount else gross_of i rate
used_above false rate amount i = i

abbrev pub fee_above : Bool → ℕ → ℕ → ℕ → ℕ → ℕ
fee_above true rate amount i m =
    if net_of amount rate == i then fee_of amount rate else gross_of i rate - i
fee_above false rate amount i m = fee_of m rate

pub used_above-le :
    (f : Bool) (rate a i : ℕ)
    → rate ≤ max_fee_rate
    → i ≤ net_in f rate a
    → used_above f rate a i ≤ a
used_above-le true rate a i small h = elim (Bool-cases (net_of a rate == i)) [
  | inl same ↦ rw same (omega arith)
  | inr more ↦ rw more (gross_of-le rate small a i h)
]
used_above-le false rate a i small h = h

pub paid-le : (f : Bool) (rate out : ℕ) → paid f rate out ≤ out
paid-le true rate out = omega arith
paid-le false rate out = omega arith

pub fee_below-le :
    (f : Bool) (rate a out : ℕ) → rate ≤ max_fee_rate → fee_below f rate a out ≤ max a out
fee_below-le true rate a out small = omega (arith, fee_of-le rate small a)
fee_below-le false rate a out small = omega (arith, fee_of-le rate small out)

pub fee_above-le :
    (f : Bool) (rate a i m : ℕ)
    → rate ≤ max_fee_rate
    → i ≤ net_in f rate a
    → fee_above f rate a i m ≤ max a m
fee_above-le true rate a i m small h = elim (Bool-cases (net_of a rate == i)) [
  | inl same ↦ rw same (omega (arith, fee_of-le rate small a))
  | inr more ↦ rw more (omega (arith, gross_of-le rate small a i h))
]
fee_above-le false rate a i m small h = omega (arith, fee_of-le rate small m)

min_left : (a b : ℕ) → a < b → min a b ≡ a
min_left a b h = omega arith

min_right : (a b : ℕ) → b ≤ a → min a b ≡ b
min_right a b h = omega arith

pub ne→== : (a b : ℕ) → a < b → (a == b) ≡ false
ne→== a b h = ground arith

==_flip : (a b : ℕ) (v : Bool) → (a == b) ≡ v → (b == a) ≡ v
==_flip a b v h = ground arith

pub ==_refl : (a : ℕ) → (a == a) ≡ true
==_refl a = ground arith

module _ (s : Bool) (rate price m i a : ℕ) (small_rate : rate ≤ max_fee_rate)
    (small_m : m < u64_size) (small_a : a < u64_size) (asked : amount_in_for_out m price s ≡ ok i)
    (t : FillState) (left : t.remaining ≡ a) where
  -- An input that does not buy all of the bin is used up.
  pub fill_bin-below :
      (f : Bool) {o : ℕ}
      → net_in f rate a < i
      → amount_out_for_in (net_in f rate a) price s ≡ ok o
      → o < m
      → fill_bin s f rate price m (net_in f rate a) (fee_full f rate a) t
        ≡ add_totals t a (fee_below f rate a o) (paid f rate o)
  unfolding fill_bin charge_bin
  fill_bin-below true h quoted less =
      rw (asked, min_left _ i h, ne→== _ i h, quoted, ==_refl (net_of a rate), left)
  fill_bin-below false {o} h quoted less = rw (
    asked,
    min_left a i h,
    ne→== a i h,
    quoted,
    excluded_fee_amount-eq rate small_rate o (omega arith),
  )

  -- An input that buys all of the bin gives all of it.
  pub fill_bin-above :
      (f : Bool)
      → i ≤ net_in f rate a
      → fill_bin s f rate price m (net_in f rate a) (fee_full f rate a) t
        ≡ add_totals t (used_above f rate a i) (fee_above f rate a i m) (paid f rate m)
  unfolding fill_bin charge_bin
  fill_bin-above true h = elim (Bool-cases (net_of a rate == i)) [
    | inl same ↦ rw (asked, min_right _ i h, ==_refl i, ==_flip _ i true same, same, left)
    | inr more ↦ rw (
      asked,
      min_right _ i h,
      ==_refl i,
      ==_flip _ i false more,
      included_fee_amount-eq rate small_rate i (omega (arith, gross_of-le rate small_rate a i h)),
      more,
    )
  ]
  fill_bin-above false h =
      rw (asked, min_right a i h, ==_refl i, excluded_fee_amount-eq rate small_rate m small_m)
