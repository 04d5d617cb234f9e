-- ===== src/Quote/Dlmm.antt =====
-- programs/sol-arb-executor/src/quote/math.rs: the quotes of the Meteora DLMM, bin by bin.
pub mod Fees
pub mod Price
pub mod Fill
pub mod OneBin
pub mod Capacity
pub mod Within
pub mod Loop
use sol_arb_executor.Prelude.{
  ℕ, ◌-◌, ◌*◌, ◌/◌, ◌^◌, min, Bool, true, false, not, ◌&&◌, ◌||◌, List, [], ◌∷◌, ltb, ◌==◌,
  if◌then◌else◌,
}
use sol_arb_executor.Errors.{
  QuoteError, invalid_input, math_overflow, insufficient_liquidity, Result, ok, err, ◌>>=◌, ok_or,
}
use sol_arb_executor.Word.{
  u64_max, u128_size, fits, checked_sub, checked_add_u64, checked_add_u128, checked_mul_u128,
}
use sol_arb_executor.Quote.Types.{
  fee_precision, max_fee_rate, q64, QuoteResult, DlmmFeeParameters, Bin,
}
use sol_arb_executor.Quote.Basic.{ceil_div, to_u64}

-- `variable_fee` of `dlmm_total_fee_rate`.
unfoldable pub variable_fee : DlmmFeeParameters → Result QuoteError ℕ
variable_fee parameters = if parameters.variable_fee_control == 0 then ok 0 else (do
  volatility_bin ←
      ok_or (checked_mul_u128 parameters.volatility_accumulator parameters.bin_step) math_overflow
  square ← ok_or (checked_mul_u128 volatility_bin volatility_bin) math_overflow
  product ← ok_or (checked_mul_u128 parameters.variable_fee_control square) math_overflow
  rounded ← ok_or (checked_add_u128 product 99_999_999_999) math_overflow
  ok (rounded / 100_000_000_000))

unfoldable pub dlmm_total_fee_rate : DlmmFeeParameters → Result QuoteError ℕ
dlmm_total_fee_rate parameters = do
  power ← ok_or (fits u128_size (10 ^ parameters.base_fee_power_factor)) math_overflow
  factor ← ok_or (checked_mul_u128 parameters.base_factor parameters.bin_step) math_overflow
  scaled ← ok_or (checked_mul_u128 factor 10) math_overflow
  base_fee ← ok_or (checked_mul_u128 scaled power) math_overflow
  variable ← variable_fee parameters
  total ← ok_or (checked_add_u128 base_fee variable) math_overflow
  ok (min total max_fee_rate)

-- The amount net of its fee, and the fee.
unfoldable pub excluded_fee_amount : ℕ → ℕ → Result QuoteError (ℕ × ℕ)
excluded_fee_amount amount fee_rate = do
  product ← ok_or (checked_mul_u128 amount fee_rate) math_overflow
  fee ← ceil_div product fee_precision
  net ← ok_or (checked_sub amount fee) math_overflow
  net_u64 ← to_u64 net
  fee_u64 ← to_u64 fee
  ok (net_u64, fee_u64)

-- The gross amount that leaves `amount` net of the fee, and the fee.
unfoldable pub included_fee_amount : ℕ → ℕ → Result QuoteError (ℕ × ℕ)
included_fee_amount amount fee_rate = do
  denominator ← ok_or (checked_sub fee_precision fee_rate) invalid_input
  product ← ok_or (checked_mul_u128 amount fee_precision) math_overflow
  included ← ceil_div product denominator
  included_u64 ← to_u64 included
  fee_u64 ← to_u64 (included - amount)
  ok (included_u64, fee_u64)

unfoldable pub amount_in_for_out : ℕ → ℕ → Bool → Result QuoteError ℕ
amount_in_for_out amount_out price_q64 swap_for_y =
    if price_q64 == 0 then err invalid_input else (do
      value ← if swap_for_y then ceil_div (amount_out * q64) price_q64 else (do
        product ← ok_or (checked_mul_u128 amount_out price_q64) math_overflow
        ceil_div product q64)
      to_u64 value)

unfoldable pub amount_out_for_in : ℕ → ℕ → Bool → Result QuoteError ℕ
amount_out_for_in amount_in price_q64 swap_for_y = if price_q64 == 0 then err invalid_input else (do
  value ←
      if swap_for_y
      then (do
        product ← ok_or (checked_mul_u128 amount_in price_q64) math_overflow
        ok (product / q64))
      else ok (amount_in * q64 / price_q64)
  to_u64 value)

-- The mutable variables of the loop over the bins.
pub record FillState : Type 0 where
  pub remaining : ℕ
  pub total_in : ℕ
  pub total_out : ℕ
  pub total_fee : ℕ

-- `max_out`: the executable liquidity of a bin, market-making and limit orders together.
unfoldable pub bin_max_out : Bin → Bool → Result QuoteError ℕ
bin_max_out bin swap_for_y = do
  limit_order_out ←
      if (swap_for_y && not bin.limit_order_ask_side)
        || (not swap_for_y && bin.limit_order_ask_side)
      then ok_or (checked_add_u64 bin.open_order_amount bin.processed_order_remaining_amount)
          math_overflow
      else ok 0
  ok_or (checked_add_u64 (if swap_for_y then bin.amount_y else bin.amount_x) limit_order_out)
      math_overflow

-- `(used_with_fee, fee, output)` of a bin.
unfoldable pub charge_bin : Bool → ℕ → ℕ → ℕ → ℕ → ℕ → ℕ → Result QuoteError (ℕ × ℕ × ℕ)
charge_bin fee_on_input fee_rate remaining available fee_for_full_input used_without_fee raw_out =
    if fee_on_input
    then (if used_without_fee == available then ok (remaining, fee_for_full_input, raw_out) else (do
      (included, partial_fee) ← included_fee_amount used_without_fee fee_rate
      ok (included, partial_fee, raw_out)))
    else (do
      (output, output_fee) ← excluded_fee_amount raw_out fee_rate
      ok (used_without_fee, output_fee, output))

-- The running totals after a bin.
unfoldable pub add_totals : FillState → ℕ → ℕ → ℕ → Result QuoteError FillState
add_totals s used_with_fee fee output = do
  remaining ← ok_or (checked_sub s.remaining used_with_fee) math_overflow
  total_in ← ok_or (checked_add_u64 s.total_in used_with_fee) math_overflow
  total_out ← ok_or (checked_add_u64 s.total_out output) math_overflow
  total_fee ← ok_or (checked_add_u64 s.total_fee fee) math_overflow
  ok (record {
    remaining = remaining;
    total_in = total_in;
    total_out = total_out;
    total_fee = total_fee;
  })

-- The rest of the loop's body, for a bin that holds `max_out` units.
unfoldable pub fill_bin : Bool → Bool → ℕ → ℕ → ℕ → ℕ → ℕ → FillState → Result QuoteError FillState
fill_bin swap_for_y fee_on_input fee_rate price_q64 max_out available fee_for_full_input s = do
  max_input_without_fee ← amount_in_for_out max_out price_q64 swap_for_y
  let used_without_fee = min available max_input_without_fee
  raw_out ←
      if used_without_fee == max_input_without_fee
      then ok max_out
      else amount_out_for_in used_without_fee price_q64 swap_for_y
  (used_with_fee, fee, output) ←
      charge_bin fee_on_input fee_rate s.remaining available fee_for_full_input used_without_fee
        raw_out
  add_totals s used_with_fee fee output

-- The loop's body after its test `remaining == 0`.
unfoldable pub quote_bin : Bool → Bool → ℕ → Bin → FillState → Result QuoteError FillState
quote_bin swap_for_y fee_on_input fee_rate bin s = do
  (available, fee_for_full_input) ←
      if fee_on_input then excluded_fee_amount s.remaining fee_rate else ok (s.remaining, 0)
  max_out ← bin_max_out bin swap_for_y
  if max_out == 0
      then ok s
      else fill_bin swap_for_y fee_on_input fee_rate bin.price_q64 max_out available
          fee_for_full_input s

-- `for bin in bins`, left by `break` when nothing remains.
unfoldable pub quote_bins : Bool → Bool → ℕ → List Bin → FillState → Result QuoteError FillState
quote_bins swap_for_y fee_on_input fee_rate [] s = ok s
quote_bins swap_for_y fee_on_input fee_rate (bin ∷ bins) s =
    if s.remaining == 0
    then ok s
    else (quote_bin swap_for_y fee_on_input fee_rate bin s >>= λ t.
        quote_bins swap_for_y fee_on_input fee_rate bins t)

abbrev pub is_empty {ℓ} : {A : Type ℓ} → List A → Bool
is_empty [] = true
is_empty (x ∷ xs) = false

unfoldable pub dlmm_quote_exact_in_impl :
    ℕ → List Bin → Bool → Bool → DlmmFeeParameters → Bool → Result QuoteError QuoteResult
dlmm_quote_exact_in_impl amount_in bins swap_for_y fee_on_input parameters require_full_fill =
    if amount_in == 0 || is_empty bins then err invalid_input else (do
      fee_rate ← dlmm_total_fee_rate parameters
      s ←
          quote_bins swap_for_y fee_on_input fee_rate bins
            (record { remaining = amount_in; total_in = 0; total_out = 0; total_fee = 0 })
      if require_full_fill && not (s.remaining == 0)
          then err insufficient_liquidity
          else ok (record { amount_in = s.total_in; amount_out = s.total_out; fee = s.total_fee }))

unfoldable pub dlmm_quote_exact_in :
    ℕ → List Bin → Bool → Bool → DlmmFeeParameters → Result QuoteError QuoteResult
dlmm_quote_exact_in amount_in bins swap_for_y fee_on_input parameters =
    dlmm_quote_exact_in_impl amount_in bins swap_for_y fee_on_input parameters true

unfoldable pub dlmm_quote_exact_in_partial :
    ℕ → List Bin → Bool → Bool → DlmmFeeParameters → Result QuoteError QuoteResult
dlmm_quote_exact_in_partial amount_in bins swap_for_y fee_on_input parameters =
    dlmm_quote_exact_in_impl amount_in bins swap_for_y fee_on_input parameters false

-- What consuming all the liquidity of one bin takes and gives.
unfoldable pub dlmm_bin_quote_capacity :
    Bin → Bool → Bool → DlmmFeeParameters → Result QuoteError QuoteResult
dlmm_bin_quote_capacity bin swap_for_y fee_on_input parameters = do
  quote ← dlmm_quote_exact_in_partial u64_max (bin ∷ []) swap_for_y fee_on_input parameters
  if quote.amount_in == 0 || quote.amount_out == 0 then err insufficient_liquidity else ok quote

-- The output of an input inside a bin whose capacity is known.
unfoldable pub dlmm_bin_output_within_capacity :
    ℕ → ℕ → ℕ → ℕ → Bool → Bool → ℕ → Result QuoteError ℕ
dlmm_bin_output_within_capacity amount_in capacity_in capacity_out price_q64 swap_for_y fee_on_input
      fee_rate =
    if amount_in == 0 || ltb capacity_in amount_in || capacity_in == 0 || capacity_out == 0
    then err invalid_input
    else (if amount_in == capacity_in
        then ok capacity_out
        else (if fee_on_input
            then (do
              (net_input, _) ← excluded_fee_amount amount_in fee_rate
              amount_out_for_in net_input price_q64 swap_for_y)
            else (do
              raw_output ← amount_out_for_in amount_in price_q64 swap_for_y
              (output, _) ← excluded_fee_amount raw_output fee_rate
              ok output)))
