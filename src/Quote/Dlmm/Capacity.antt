-- ===== src/Quote/Dlmm/Capacity.antt =====
-- `dlmm_bin_quote_capacity` of quote/math.rs against the offer of the bin.
use native.Mathlib.Decide.{dec_lt}
use sol_arb_executor.Prelude.{
  ℕ, ◌≤◌, ◌<◌, ◌≡◌, refl, sym, ◌∙◌, arith, Bool, true, false, ◌==◌, [], ◌∷◌, ◌||◌, Bool-cases, inl,
  inr, if◌then◌else◌,
}
use sol_arb_executor.Errors.{
  ok, err, Result, QuoteError, insufficient_liquidity, ◌>>=◌, >>=-eq-ok, Result-cases,
}
use sol_arb_executor.Word.{u64_size, u64_max}
use sol_arb_executor.Quote.Types.{max_fee_rate, Bin, DlmmFeeParameters, QuoteResult}
use sol_arb_executor.Quote.Dlmm.{
  amount_in_for_out, quote_bin, bin_max_out, fill_bin, dlmm_total_fee_rate,
  dlmm_quote_exact_in_partial, dlmm_bin_quote_capacity,
}
use sol_arb_executor.Quote.Dlmm.Fees.{net_of, gross_of, dlmm_total_fee_rate-le}
use sol_arb_executor.Quote.Dlmm.Fill.{net_in, paid, used_above}
use sol_arb_executor.Quote.Dlmm.OneBin.{
  start, finish, Offer, quote_bin-open, quote_bin-err, partial-open, partial-below, partial-above,
}

-- The gross input for a net one, where the fee is on the input.
abbrev pub gross_in : Bool → ℕ → ℕ → ℕ
gross_in true rate amount = gross_of amount rate
gross_in false rate amount = amount

-- A capacity that leaves part of the largest u64 over is the whole offer of the bin.
pub record IsWhole (bin : Bin) (s f : Bool) (rate : ℕ) (c : QuoteResult) : Type 0 where
  pub offer : Offer bin s
  pub whole_in : c.amount_in ≡ gross_in f rate offer.i
  pub whole_out : c.amount_out ≡ paid f rate offer.m
  pub in_pos : 0 < c.amount_in
  pub out_pos : 0 < c.amount_out

positive :
    (z : QuoteResult) {c : QuoteResult}
    → (if z.amount_in == 0 || z.amount_out == 0 then err insufficient_liquidity else ok z) ≡ ok c
    → (z ≡ c) × (0 < c.amount_in) × (0 < c.amount_out)
positive z h = ground arith

nothing_in : (a : ℕ) {z : QuoteResult} → 0 < z.amount_in → finish (start a) ≡ ok z → ⊥
nothing_in a pos h = ground arith

-- A quote that fills something comes from an offer.
quote_bin-Offer :
    (bin : Bin) (s f : Bool) (rate a : ℕ) {z : QuoteResult}
    → rate ≤ max_fee_rate
    → a < u64_size
    → (quote_bin s f rate bin (start a) >>= finish) ≡ ok z
    → 0 < z.amount_in
    → Offer bin s
unfolding fill_bin
quote_bin-Offer bin s f rate a small_rate small got pos = elim (Result-cases (bin_max_out bin s)) [
  | inr (e, failed) ↦ cc (rw (quote_bin-err s f rate bin (start a) small_rate small failed) at got)
  | inl (m, max_out) ↦ elim (Bool-cases (m == 0)) [
    | inl empty ↦ absurd (
        nothing_in a pos
          (rw (quote_bin-open s f rate bin (start a) small_rate small max_out, empty) at got))
    | inr full ↦ elim (Result-cases (amount_in_for_out m bin.price_q64 s)) [
      | inl (i, asked) ↦ record {
        m = m;
        i = i;
        max_out = max_out;
        some_liquidity = ground arith;
        asked = asked;
      }
      | inr (e, failed) ↦
          cc (
            rw (quote_bin-open s f rate bin (start a) small_rate small max_out, full, failed) at
              got)
    ]
  ]
]

fields :
    {x y fee : ℕ} {c : QuoteResult}
    → ◌≡◌ {A = Result QuoteError QuoteResult}
        (ok (record { amount_in = x; amount_out = y; fee = fee }))
        (ok c)
    → (x ≡ c.amount_in) × (y ≡ c.amount_out)
fields h = ground arith

used_above-gross_in :
    (f : Bool) (rate i : ℕ)
    → used_above f rate u64_max i < u64_max
    → used_above f rate u64_max i ≡ gross_in f rate i
used_above-gross_in true rate i h = elim (Bool-cases (net_of u64_max rate == i)) [
  | inl same ↦ absurd (omega (arith, rw same at h))
  | inr more ↦ rw more
]
used_above-gross_in false rate i h = refl

module _ (bin : Bin) (s f : Bool) (fees : DlmmFeeParameters) {rate : ℕ}
    (priced : dlmm_total_fee_rate fees ≡ ok rate) {c : QuoteResult}
    (measured : dlmm_bin_quote_capacity bin s f fees ≡ ok c) (partly : c.amount_in < u64_max) where
  small_rate : rate ≤ max_fee_rate
  small_rate = dlmm_total_fee_rate-le fees priced

  capacity-open :
      ((quote_bin s f rate bin (start u64_max) >>= finish) ≡ ok c)
      × (0 < c.amount_in)
      × (0 < c.amount_out)
  unfolding dlmm_bin_quote_capacity
  capacity-open =
      let (z, quoted, kept) =
        >>=-eq-ok (dlmm_quote_exact_in_partial u64_max (bin ∷ []) s f fees) _ measured in
      let (same, in_pos, out_pos) = positive z kept in
      (
        rw (← same) (rw (partial-open u64_max bin s f fees (omega arith) priced) at quoted),
        in_pos,
        out_pos,
      )

  -- A capacity below the largest u64 is that of the whole bin.
  pub capacity-IsWhole : IsWhole bin s f rate c
  capacity-IsWhole =
      let (got, in_pos, out_pos) = capacity-open in
      let o : Offer bin s =
        quote_bin-Offer bin s f rate u64_max small_rate (omega arith) got in_pos in
      elim (dec_lt (net_in f rate u64_max) o.i) [
        | yes below ↦
            let (raw, fee, _, _, all) =
              partial-below bin s f rate small_rate o u64_max (omega arith) below in
            absurd (omega (arith, (fields (sym all ∙ got)).0))
        | no above ↦
            let (fee, all) =
              partial-above bin s f rate small_rate o u64_max (omega arith) (omega arith) in
            let (used, paid_out) = fields (sym all ∙ got) in
            record {
              offer = o;
              whole_in = sym used ∙ used_above-gross_in f rate o.i (rw used partly);
              whole_out = sym paid_out;
              in_pos = in_pos;
              out_pos = out_pos;
            }
      ]
