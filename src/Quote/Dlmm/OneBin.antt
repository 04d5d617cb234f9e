-- ===== src/Quote/Dlmm/OneBin.antt =====
-- The quotes of quote/math.rs against a single bin.
use native.Mathlib.Nat.{zero-add}
use sol_arb_executor.Prelude.{
  ℕ, ◌+◌, ◌≤◌, ◌<◌, ◌≡◌, refl, arith, Bool, true, false, ◌==◌, [], ◌∷◌, inl, inr, pos→==,
  if◌then◌else◌,
}
use sol_arb_executor.Errors.{ok, err, Result, QuoteError, ◌>>=◌, Result-cases}
use sol_arb_executor.Word.{
  u64_size, checked_sub, checked_add_u64, checked_sub_le, checked_add_u64_lt,
}
use sol_arb_executor.Quote.Types.{max_fee_rate, Bin, DlmmFeeParameters, QuoteResult}
use sol_arb_executor.Quote.Dlmm.{
  FillState, amount_in_for_out, amount_out_for_in, add_totals, fill_bin, quote_bin, quote_bins,
  bin_max_out, dlmm_total_fee_rate, dlmm_quote_exact_in_impl, dlmm_quote_exact_in_partial,
}
use sol_arb_executor.Quote.Dlmm.Price.{amount_out_for_in-lt}
use sol_arb_executor.Quote.Dlmm.Fees.{excluded_fee_amount-eq}
use sol_arb_executor.Quote.Dlmm.Fill.{
  net_in, paid, fee_full, fee_below, fee_above, used_above, used_above-le, paid-le, fee_below-le,
  fee_above-le, fill_bin-below, fill_bin-above,
}

abbrev pub start : ℕ → FillState
start a = record { remaining = a; total_in = 0; total_out = 0; total_fee = 0 }

abbrev pub finish : FillState → Result QuoteError QuoteResult
finish t = ok (record { amount_in = t.total_in; amount_out = t.total_out; fee = t.total_fee })

-- The liquidity of a bin is a `u64`.
pub bin_max_out-lt : (bin : Bin) (s : Bool) {m : ℕ} → bin_max_out bin s ≡ ok m → m < u64_size
unfolding bin_max_out checked_add_u64
bin_max_out-lt bin s h = ground arith

pub add_totals-eq :
    (a used fee out : ℕ)
    → used ≤ a
    → a < u64_size
    → fee < u64_size
    → out < u64_size
    → (add_totals (start a) used fee out >>= finish)
      ≡ ok (record { amount_in = used; amount_out = out; fee = fee })
unfolding add_totals
add_totals-eq a used fee out h k l n =
    rw
      (
        checked_sub_le a used h,
        checked_add_u64_lt 0 used (omega arith),
        checked_add_u64_lt 0 out (omega arith),
        checked_add_u64_lt 0 fee (omega arith),
      )
      (simp zero-add)

pub add_totals-eq-ok :
    (t : FillState) (used fee out : ℕ) {u : FillState}
    → add_totals t used fee out ≡ ok u
    → (u.remaining + used ≡ t.remaining)
      × (u.total_in ≡ t.total_in + used)
      × (u.total_out ≡ t.total_out + out)
      × (u.total_fee ≡ t.total_fee + fee)
unfolding add_totals checked_sub checked_add_u64
add_totals-eq-ok t used fee out h = ground arith

-- The loop's body once the liquidity is known.
pub quote_bin-open :
    (s f : Bool) (rate : ℕ) (bin : Bin) (t : FillState) {m : ℕ}
    → rate ≤ max_fee_rate
    → t.remaining < u64_size
    → bin_max_out bin s ≡ ok m
    → quote_bin s f rate bin t ≡ (
        if m == 0
        then ok t
        else fill_bin s f rate bin.price_q64 m
            (net_in f rate t.remaining)
            (fee_full f rate t.remaining)
            t)
unfolding quote_bin
quote_bin-open s true rate bin t small_rate small max_out =
    rw (excluded_fee_amount-eq rate small_rate t.remaining small, max_out)
quote_bin-open s false rate bin t small_rate small max_out = rw max_out

pub quote_bin-err :
    (s f : Bool) (rate : ℕ) (bin : Bin) (t : FillState) {e : QuoteError}
    → rate ≤ max_fee_rate
    → t.remaining < u64_size
    → bin_max_out bin s ≡ err e
    → quote_bin s f rate bin t ≡ err e
unfolding quote_bin
quote_bin-err s true rate bin t small_rate small failed =
    rw (excluded_fee_amount-eq rate small_rate t.remaining small, failed)
quote_bin-err s false rate bin t small_rate small failed = rw failed

-- One bin, quoted in part: the loop's body once, then the totals.
pub partial-open :
    (a : ℕ) (bin : Bin) (s f : Bool) (fees : DlmmFeeParameters) {rate : ℕ}
    → 0 < a
    → dlmm_total_fee_rate fees ≡ ok rate
    → dlmm_quote_exact_in_partial a (bin ∷ []) s f fees
      ≡ (quote_bin s f rate bin (start a) >>= finish)
unfolding dlmm_quote_exact_in_partial dlmm_quote_exact_in_impl quote_bins
partial-open a bin s f fees {rate} pos priced =
    elim (Result-cases (quote_bin s f rate bin (start a))) [
      | inl (t, got) ↦ rw (pos→== a pos, priced, got)
      | inr (e, got) ↦ rw (pos→== a pos, priced, got)
    ]

-- The part of a bin's quote that depends on the bin: the liquidity and the net input that buys it.
pub record Offer (bin : Bin) (s : Bool) : Type 0 where
  pub m : ℕ
  pub i : ℕ
  pub max_out : bin_max_out bin s ≡ ok m
  pub some_liquidity : 0 < m
  pub asked : amount_in_for_out m bin.price_q64 s ≡ ok i

module _ (bin : Bin) (s f : Bool) (rate : ℕ) (small_rate : rate ≤ max_fee_rate)
    (o : Offer bin s) where
  -- Below the offer's input all is used and less than the whole bin is paid.
  pub partial-below :
      (a : ℕ)
      → a < u64_size
      → net_in f rate a < o.i
      → (raw fee : ℕ) × (amount_out_for_in (net_in f rate a) bin.price_q64 s ≡ ok raw)
        × (raw < o.m)
        × ((quote_bin s f rate bin (start a) >>= finish)
            ≡ ok (record { amount_in = a; amount_out = paid f rate raw; fee = fee }))
  partial-below a small below =
      let m_small : o.m < u64_size = bin_max_out-lt bin s o.max_out in
      let (raw, quoted, less) =
        amount_out_for_in-lt o.m bin.price_q64 (net_in f rate a) s m_small o.asked below in
      (
        raw,
        fee_below f rate a raw,
        quoted,
        less,
        rw
            (
              quote_bin-open s f rate bin (start a) small_rate small o.max_out,
              pos→== o.m o.some_liquidity,
              fill_bin-below s rate bin.price_q64 o.m o.i a small_rate m_small small o.asked
                  (start a) refl f below quoted less,
            )
            (add_totals-eq a a (fee_below f rate a raw) (paid f rate raw) (omega arith) small
              (omega (arith, fee_below-le f rate a raw small_rate))
              (omega (arith, paid-le f rate raw))),
      )

  pub partial-above :
      (a : ℕ)
      → a < u64_size
      → o.i ≤ net_in f rate a
      → (fee : ℕ) × ((quote_bin s f rate bin (start a) >>= finish)
          ≡ ok (record {
            amount_in = used_above f rate a o.i;
            amount_out = paid f rate o.m;
            fee = fee;
          }))
  partial-above a small above =
      let m_small : o.m < u64_size = bin_max_out-lt bin s o.max_out in
      (
        fee_above f rate a o.i o.m,
        rw
            (
              quote_bin-open s f rate bin (start a) small_rate small o.max_out,
              pos→== o.m o.some_liquidity,
              fill_bin-above s rate bin.price_q64 o.m o.i a small_rate m_small small o.asked
                  (start a) refl f above,
            )
            (add_totals-eq a (used_above f rate a o.i) (fee_above f rate a o.i o.m)
              (paid f rate o.m) (used_above-le f rate a o.i small_rate above) small
              (omega (arith, fee_above-le f rate a o.i o.m small_rate above))
              (omega (arith, paid-le f rate o.m))),
      )
