-- ===== src/Quote/Dlmm/Within.antt =====
-- `dlmm_bin_output_within_capacity` of quote/math.rs against the full quote of one bin.
use native.Mathlib.Nat.{lt_trans}
use native.Mathlib.Decide.{dec_lt}
use sol_arb_executor.Prelude.{
  ℕ, ◌≤◌, ◌<◌, ◌≡◌, refl, ap, ◌∙◌, arith, Bool, true, false, [], ◌∷◌, pos→==, le→ltb,
}
use sol_arb_executor.Errors.{ok}
use sol_arb_executor.Word.{u64_size, u64_max}
use sol_arb_executor.Quote.Types.{max_fee_rate, Bin, DlmmFeeParameters, QuoteResult}
use sol_arb_executor.Quote.Dlmm.{
  amount_out_for_in, dlmm_total_fee_rate, dlmm_quote_exact_in_partial, dlmm_bin_quote_capacity,
  dlmm_bin_output_within_capacity,
}
use sol_arb_executor.Quote.Dlmm.Fees.{
  net_of-lt, net_of-gross_of, excluded_fee_amount-eq, dlmm_total_fee_rate-le,
}
use sol_arb_executor.Quote.Dlmm.Fill.{net_in, paid, used_above, ne→==, ==_refl}
use sol_arb_executor.Quote.Dlmm.OneBin.{bin_max_out-lt, partial-open, partial-below, partial-above}
use sol_arb_executor.Quote.Dlmm.Capacity.{gross_in, IsWhole, capacity-IsWhole}

net_in-lt :
    (f : Bool) (rate a i : ℕ) → rate ≤ max_fee_rate → a < gross_in f rate i → net_in f rate a < i
net_in-lt true rate a i small h = net_of-lt rate small a i h
net_in-lt false rate a i small h = h

net_in-gross_in :
    (f : Bool) (rate i : ℕ) → rate ≤ max_fee_rate → net_in f rate (gross_in f rate i) ≡ i
net_in-gross_in true rate i small = net_of-gross_of rate small i
net_in-gross_in false rate i small = refl

used_above-gross_in :
    (f : Bool) (rate i : ℕ)
    → rate ≤ max_fee_rate
    → used_above f rate (gross_in f rate i) i ≡ gross_in f rate i
used_above-gross_in true rate i small = rw (net_of-gross_of rate small i, ==_refl i)
used_above-gross_in false rate i small = refl

-- Strictly inside the capacity the compact quote prices the net input.
within-inside :
    (s f : Bool) (rate price a ci co raw : ℕ)
    → rate ≤ max_fee_rate
    → 0 < a
    → a < ci
    → 0 < co
    → a < u64_size
    → raw < u64_size
    → amount_out_for_in (net_in f rate a) price s ≡ ok raw
    → dlmm_bin_output_within_capacity a ci co price s f rate ≡ ok (paid f rate raw)
unfolding dlmm_bin_output_within_capacity
within-inside s true rate price a ci co raw small pos inside out fits fits_out quoted = rw (
  pos→== a pos,
  le→ltb ci a (omega arith),
  pos→== ci (omega arith),
  pos→== co out,
  ne→== a ci inside,
  excluded_fee_amount-eq rate small a fits,
  quoted,
)
within-inside s false rate price a ci co raw small pos inside out fits fits_out quoted = rw (
  pos→== a pos,
  le→ltb ci a (omega arith),
  pos→== ci (omega arith),
  pos→== co out,
  ne→== a ci inside,
  quoted,
  excluded_fee_amount-eq rate small raw fits_out,
)

within-at :
    (s f : Bool) (rate price ci co : ℕ)
    → 0 < ci
    → 0 < co
    → dlmm_bin_output_within_capacity ci ci co price s f rate ≡ ok co
unfolding dlmm_bin_output_within_capacity
within-at s f rate price ci co pos out =
    rw (pos→== ci pos, le→ltb ci ci (omega arith), pos→== co out, ==_refl ci)

-- For a bin whose measured capacity lies below the largest u64, every input within that capacity
-- is quoted by the full one-bin path, is used up by it, and the compact quote gives the same
-- output.
pub dlmm_bin_output_within_capacity-eq-partial :
    (bin : Bin) (s f : Bool) (fees : DlmmFeeParameters) {rate : ℕ} {c : QuoteResult} (a : ℕ)
    → dlmm_total_fee_rate fees ≡ ok rate
    → dlmm_bin_quote_capacity bin s f fees ≡ ok c
    → c.amount_in < u64_max
    → 0 < a
    → a ≤ c.amount_in
    → (z : QuoteResult) × (dlmm_quote_exact_in_partial a (bin ∷ []) s f fees ≡ ok z)
      × (z.amount_in ≡ a)
      × (dlmm_bin_output_within_capacity a c.amount_in c.amount_out bin.price_q64 s f rate
          ≡ ok z.amount_out)
dlmm_bin_output_within_capacity-eq-partial bin s f fees {rate} {c} a priced measured partly pos
      inside =
    elim (dec_lt a c.amount_in) [
      | yes less ↦
          let (raw, fee, quoted, below, all) =
            partial-below bin s f rate small o a (omega arith)
              (net_in-lt f rate a o.i small (rw w.whole_in at less)) in
          (
            record { amount_in = a; amount_out = paid f rate raw; fee = fee },
            partial-open a bin s f fees pos priced ∙ all,
            refl,
            within-inside s f rate bin.price_q64 a c.amount_in c.amount_out raw small pos less
                w.out_pos (omega arith) (lt_trans below (bin_max_out-lt bin s o.max_out)) quoted,
          )
      | no equal ↦
          let same : a ≡ c.amount_in = omega arith in
          let exact : a ≡ gross_in f rate o.i = same ∙ w.whole_in in
          let bought : net_in f rate a ≡ o.i = rw exact (net_in-gross_in f rate o.i small) in
          let (fee, all) = partial-above bin s f rate small o a (omega arith) (omega arith) in
          (
            record { amount_in = used_above f rate a o.i; amount_out = paid f rate o.m; fee = fee },
            partial-open a bin s f fees pos priced ∙ all,
            rw exact (used_above-gross_in f rate o.i small),
            rw same (
                within-at s f rate bin.price_q64 c.amount_in c.amount_out w.in_pos w.out_pos
                ∙ ap ok w.whole_out),
          )
    ]
  where
    small : rate ≤ max_fee_rate
    small = dlmm_total_fee_rate-le fees priced

    w : IsWhole bin s f rate c
    w = capacity-IsWhole bin s f fees priced measured partly

    open w use {offer as o}
