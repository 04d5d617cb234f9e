-- ===== src/Quote/Dlmm/Loop.antt =====
-- The loop over the bins in quote/math.rs: its totals against the input and the liquidity.
use mathlib.Core.Path.{subst}
use native.Mathlib.Decide.{dec_lt}
use sol_arb_executor.Prelude.{
  ℕ, ◌+◌, ◌≤◌, ◌<◌, ◌≡◌, refl, sym, ◌∙◌, arith, Bool, true, false, not, ◌==◌, ◌&&◌, List, [], ◌∷◌,
  ◌||◌, Bool-cases, inl, inr, if◌then◌else◌,
}
use sol_arb_executor.Errors.{
  ok, err, Result, QuoteError, >>=-eq-ok, Result-cases, insufficient_liquidity,
}
use sol_arb_executor.Word.{u64_size, checked_add_u64}
use sol_arb_executor.Quote.Types.{max_fee_rate, Bin, DlmmFeeParameters, QuoteResult}
use sol_arb_executor.Quote.Dlmm.{
  FillState, amount_in_for_out, fill_bin, quote_bin, quote_bins, bin_max_out, dlmm_total_fee_rate,
  dlmm_quote_exact_in_impl, dlmm_quote_exact_in_partial, dlmm_quote_exact_in, is_empty,
}
use sol_arb_executor.Quote.Dlmm.Price.{amount_out_for_in-lt}
use sol_arb_executor.Quote.Dlmm.Fees.{dlmm_total_fee_rate-le}
use sol_arb_executor.Quote.Dlmm.Fill.{net_in, fee_full, paid-le, fill_bin-below, fill_bin-above}
use sol_arb_executor.Quote.Dlmm.OneBin.{
  start, bin_max_out-lt, quote_bin-open, quote_bin-err, add_totals-eq-ok,
}

-- The liquidity of a bin on the side that the swap takes: market making and limit orders.
abbrev pub executable : Bin → Bool → ℕ
executable bin true =
    bin.amount_y
    + (if bin.limit_order_ask_side
        then 0
        else bin.open_order_amount + bin.processed_order_remaining_amount)
executable bin false =
    bin.amount_x
    + (if bin.limit_order_ask_side
        then bin.open_order_amount + bin.processed_order_remaining_amount
        else 0)

abbrev pub liquidity : List Bin → Bool → ℕ
liquidity [] s = 0
liquidity (bin ∷ bins) s = executable bin s + liquidity bins s

pub bin_max_out-eq-ok :
    (bin : Bin) (s : Bool) {m : ℕ} → bin_max_out bin s ≡ ok m → m ≡ executable bin s
unfolding bin_max_out checked_add_u64
bin_max_out-eq-ok bin true h = ground arith
bin_max_out-eq-ok bin false h = ground arith

-- What one round keeps, with `room` units of liquidity at hand.
pub record Keeps (room : ℕ) (t u : FillState) : Type 0 where
  pub conserved : u.total_in + u.remaining ≡ t.total_in + t.remaining
  pub backed : u.total_out ≤ t.total_out + room
  pub shrinks : u.remaining ≤ t.remaining

Keeps-self :
    {room : ℕ} {t u : FillState}
    → ◌≡◌ {A = Result QuoteError FillState} (ok t) (ok u)
    → Keeps room t u
Keeps-self h = ground arith

module _ (s f : Bool) (rate : ℕ) (small_rate : rate ≤ max_fee_rate) where
  fill_bin-Keeps :
      (bin : Bin) (t : FillState) {u : FillState} {m i : ℕ}
      → t.remaining < u64_size
      → m < u64_size
      → amount_in_for_out m bin.price_q64 s ≡ ok i
      → fill_bin s f rate bin.price_q64 m
          (net_in f rate t.remaining)
          (fee_full f rate t.remaining)
          t
        ≡ ok u
      → Keeps m t u
  fill_bin-Keeps bin t {m} {i} small m_small asked done =
      elim (dec_lt (net_in f rate t.remaining) i) [
        | yes below ↦
            let (raw, quoted, less) =
              amount_out_for_in-lt m bin.price_q64 (net_in f rate t.remaining) s m_small asked
                below in
            let (a, b, c, _) = add_totals-eq-ok t _ _ _ (
              sym (
                fill_bin-below s rate bin.price_q64 m i t.remaining small_rate m_small small asked t
                  refl f below quoted less)
              ∙ done) in
            record {
              conserved = omega arith;
              backed = omega (arith, paid-le f rate raw);
              shrinks = omega arith;
            }
        | no above ↦
            let (a, b, c, _) = add_totals-eq-ok t _ _ _ (
              sym (
                fill_bin-above s rate bin.price_q64 m i t.remaining small_rate m_small small asked t
                  refl f (omega arith))
              ∙ done) in
            record {
              conserved = omega arith;
              backed = omega (arith, paid-le f rate m);
              shrinks = omega arith;
            }
      ]

  quote_bin-Keeps :
      (bin : Bin) (t : FillState) {u : FillState}
      → t.remaining < u64_size
      → quote_bin s f rate bin t ≡ ok u
      → Keeps (executable bin s) t u
  unfolding fill_bin
  quote_bin-Keeps bin t {u} small done = elim (Result-cases (bin_max_out bin s)) [
    | inr (e, failed) ↦ cc (rw (quote_bin-err s f rate bin t small_rate small failed) at done)
    | inl (m, max_out) ↦
        subst (λ k. Keeps k t u) (bin_max_out-eq-ok bin s max_out)
          (elim (Bool-cases (m == 0)) [
            | inl empty ↦
                Keeps-self
                  (rw (quote_bin-open s f rate bin t small_rate small max_out, empty) at done)
            | inr full ↦
                let opened =
                  rw (quote_bin-open s f rate bin t small_rate small max_out, full) at done in
                elim (Result-cases (amount_in_for_out m bin.price_q64 s)) [
                  | inl (i, asked) ↦
                      fill_bin-Keeps bin t small (bin_max_out-lt bin s max_out) asked opened
                  | inr (e, failed) ↦ cc (rw failed at opened)
                ]
          ])
  ]

  pub quote_bins-Keeps :
      (bins : List Bin) (t : FillState) {u : FillState}
      → t.remaining < u64_size
      → quote_bins s f rate bins t ≡ ok u
      → Keeps (liquidity bins s) t u
  unfolding quote_bins
  quote_bins-Keeps [] t small done = ground arith
  quote_bins-Keeps (bin ∷ bins) t small done = elim (Bool-cases (t.remaining == 0)) [
    | inl spent ↦ Keeps-self (rw spent at done)
    | inr more ↦
        let (v, first, rest) = >>=-eq-ok (quote_bin s f rate bin t) _ (rw more at done) in
        let k = quote_bin-Keeps bin t small first in
        let l = quote_bins-Keeps bins v (omega arith) rest in
        record { conserved = omega arith; backed = omega arith; shrinks = omega arith }
  ]

module _ (a : ℕ) (bins : List Bin) (s f : Bool) (fees : DlmmFeeParameters) (small : a < u64_size)
    {z : QuoteResult} where
  impl-eq-ok :
      (full : Bool)
      → dlmm_quote_exact_in_impl a bins s f fees full ≡ ok z
      → (u : FillState) × Keeps (liquidity bins s) (start a) u
        × (z.amount_in ≡ u.total_in)
        × (z.amount_out ≡ u.total_out)
        × ((full && not (u.remaining == 0)) ≡ false)
  unfolding dlmm_quote_exact_in_impl
  impl-eq-ok full done = elim (Bool-cases (a == 0 || is_empty bins)) [
    | inl refused ↦ cc (rw refused at done)
    | inr fine ↦
        let (rate, priced, h) = >>=-eq-ok (dlmm_total_fee_rate fees) _ (rw fine at done) in
        let (u, looped, last) = >>=-eq-ok (quote_bins s f rate bins (start a)) _ h in
        let (x, y, w) = settled u full last in
        (
          u,
          quote_bins-Keeps s f rate (dlmm_total_fee_rate-le fees priced) bins (start a) small
              looped,
          x,
          y,
          w,
        )
  ]
    where
      settled :
          (u : FillState) (full : Bool)
          → (if full && not (u.remaining == 0)
              then err insufficient_liquidity
              else ok
                  (record { amount_in = u.total_in; amount_out = u.total_out; fee = u.total_fee }))
            ≡ ok z
          → (z.amount_in ≡ u.total_in)
            × (z.amount_out ≡ u.total_out)
            × ((full && not (u.remaining == 0)) ≡ false)
      settled u full h = ground arith

  -- For an input that is a u64, a successful full quote over any bins uses up exactly its input and pays out no more than the bins hold on
  -- the side that the swap takes.
  pub dlmm_quote_exact_in_bounds :
      dlmm_quote_exact_in a bins s f fees ≡ ok z
      → (z.amount_in ≡ a) × (z.amount_out ≤ liquidity bins s)
  unfolding dlmm_quote_exact_in
  dlmm_quote_exact_in_bounds done =
      let (u, k, x, y, w) = impl-eq-ok true done in
      let spent : u.remaining ≡ 0 = ground arith in (omega arith, omega arith)

  -- For an input that is a u64, a successful partial quote uses at most its input and pays out no more than the bins hold.
  pub dlmm_quote_exact_in_partial_bounds :
      dlmm_quote_exact_in_partial a bins s f fees ≡ ok z
      → (z.amount_in ≤ a) × (z.amount_out ≤ liquidity bins s)
  unfolding dlmm_quote_exact_in_partial
  dlmm_quote_exact_in_partial_bounds done =
      let (u, k, x, y, w) = impl-eq-ok false done in (omega arith, omega arith)
