-- ===== src/Snapshot.antt =====
-- programs/sol-arb-executor/src/quote/accounts.rs: the parsed bin arrays and the quotes on a snapshot
-- of them, which are made off the chain.
pub mod Arrays
pub mod Same
mod Tests
use sol_arb_executor.Prelude.{
  ℕ, zero, suc, ◌+◌, ◌-◌, ◌^◌, List, [], ◌∷◌, ◌++◌, Bool, false, ◌&&◌, Option, none, some, find?,
  ◌==◌, if◌then◌else◌,
}
use sol_arb_executor.Prelude.Int.{ℤ, pos, negsuc, ◌+ℤ◌, ◌-ℤ◌, ◌*ℤ◌, ◌==ℤ◌, ltb_ℤ, leb_ℤ}
use sol_arb_executor.Errors.{
  QuoteError, math_overflow, insufficient_liquidity, Result, ok, err, ◌>>=◌, ◌>>◌, ok_or, require,
}
use sol_arb_executor.Word.{checked_sub, checked_add_u64}
use sol_arb_executor.Quote.Types.{Bin, QuoteResult}
use sol_arb_executor.Quote.Dlmm.{dlmm_quote_exact_in_partial}
use sol_arb_executor.Accounts.Types.{
  LbPairState, DlmmVariableParameters, max_quote_visited_bins_per_direction,
}
use sol_arb_executor.Accounts.Bytes.{discriminator_len}
use sol_arb_executor.Accounts.Bins.{
  bin_array_header_size, fits_i64, parse_bin, parse_bin_array_index, bin_array_index, bin_offset,
  in_default_range, default_bitmap_contains, extension_bitmap_contains,
}
use sol_arb_executor.Accounts.Volatility.{
  update_reference, update_volatility_accumulator, dlmm_fee_parameters, fee_on_input,
  supports_limit_orders,
}
use sol_arb_executor.Dynamic.Build.{next_bin, note_array, usable_bin}

-- The offset of a bin is below seventy, so `as u8` keeps it.
pub record ParsedBinArray : Type 0 where
  pub index : ℤ
  pub bins : List (ℕ × Bin)

pub record DlmmSnapshotQuote : Type 0 where
  pub quote : QuoteResult
  pub used_array_indices : List ℤ

abbrev pub bins_base : ℕ
bins_base = discriminator_len + bin_array_header_size

-- The loop of `parse_bin_array`, for the bins that are left.
unfoldable pub parse_bins : ℕ → ℕ → List ℕ → Result QuoteError (List (ℕ × Bin))
parse_bins zero bin_index data_bytes = ok []
parse_bins (suc n) bin_index data_bytes = do
  bin ← parse_bin data_bytes bins_base bin_index
  bins ← parse_bins n (bin_index + 1) data_bytes
  ok ((bin_index, bin) ∷ bins)

unfoldable pub parse_bin_array : List ℕ → Result QuoteError ParsedBinArray
parse_bin_array data_bytes = do
  index ← parse_bin_array_index data_bytes
  bins ← parse_bins 70 0 data_bytes
  ok (record { index = index; bins = bins })

-- A sum or a difference of i32s, saturated.
abbrev pub saturated_i32 : ℤ → ℤ
saturated_i32 z =
    if ltb_ℤ z (negsuc (2 ^ 31 - 1))
    then negsuc (2 ^ 31 - 1)
    else (if ltb_ℤ (pos (2 ^ 31 - 1)) z then pos (2 ^ 31 - 1) else z)

-- `absolute_id`.
unfoldable pub absolute_id : ℤ → ℕ → Result QuoteError ℤ
absolute_id index bin_index = do
  first ← ok_or (fits_i64 (index *ℤ pos 70)) math_overflow
  ok_or (fits_i64 (first +ℤ pos bin_index)) math_overflow

-- The bin of a round of the window, if it is inside.
unfoldable pub window_bin : Bool → ℕ → List ℕ → Result QuoteError (List (ℕ × Bin))
window_bin inside bin_index data_bytes =
    if inside
    then (do bin ← parse_bin data_bytes bins_base bin_index; ok ((bin_index, bin) ∷ []))
    else ok []

unfoldable pub parse_window : ℕ → ℕ → ℤ → ℤ → ℤ → List ℕ → Result QuoteError (List (ℕ × Bin))
parse_window zero bin_index index lower upper data_bytes = ok []
parse_window (suc n) bin_index index lower upper data_bytes = do
  id ← absolute_id index bin_index
  bin ← window_bin (leb_ℤ lower id && leb_ℤ id upper) bin_index data_bytes
  bins ← parse_window n (bin_index + 1) index lower upper data_bytes
  ok (bin ++ bins)

unfoldable pub parse_bin_array_window : List ℕ → ℤ → Result QuoteError ParsedBinArray
parse_bin_array_window data_bytes active_id = do
  index ← parse_bin_array_index data_bytes
  let lower = saturated_i32 (active_id -ℤ pos (max_quote_visited_bins_per_direction - 1))
  let upper = saturated_i32 (active_id +ℤ pos (max_quote_visited_bins_per_direction - 1))
  bins ← parse_window 70 0 index lower upper data_bytes
  ok (record { index = index; bins = bins })

-- The mutable variables of the loop of the quote.
pub record SnapshotState : Type 0 where
  pub active_id : ℤ
  pub variable : DlmmVariableParameters
  pub remaining : ℕ
  pub amount_out : ℕ
  pub total_fee : ℕ
  pub used_array_indices : List ℤ

-- What does not change during the loop.
pub record SnapshotWalk : Type 0 where
  pub pair : LbPairState
  pub arrays : List ParsedBinArray
  pub bitmap_extension : Option (List ℕ)
  pub swap_for_y : Bool
  pub fee_on_input : Bool
  pub supports_limit_orders : Bool

-- `initialized`.
unfoldable pub snapshot_initialized : LbPairState → Option (List ℕ) → ℤ → Result QuoteError Bool
snapshot_initialized pair bitmap_extension array_index =
    if in_default_range array_index
    then ok (default_bitmap_contains pair.bitmap array_index)
    else elim bitmap_extension [
      | none ↦ ok false
      | some extension ↦ extension_bitmap_contains extension array_index
    ]

-- The rest of a round, from the bin.
unfoldable pub charge_round :
    SnapshotWalk → SnapshotState → List ℤ → Bin → Result QuoteError SnapshotState
charge_round w s used parsed = do
  let bin = usable_bin w.supports_limit_orders parsed
  let variable = update_volatility_accumulator s.active_id s.variable w.pair.static_parameters
  partial ←
      dlmm_quote_exact_in_partial s.remaining (bin ∷ []) w.swap_for_y w.fee_on_input
        (dlmm_fee_parameters w.pair variable)
  remaining ← ok_or (checked_sub s.remaining partial.amount_in) math_overflow
  amount_out ← ok_or (checked_add_u64 s.amount_out partial.amount_out) math_overflow
  total_fee ← ok_or (checked_add_u64 s.total_fee partial.fee) math_overflow
  ok (record {
    active_id = if remaining == 0 then s.active_id else next_bin s.active_id w.swap_for_y;
    variable = variable;
    remaining = remaining;
    amount_out = amount_out;
    total_fee = total_fee;
    used_array_indices = used;
  })

-- The body for an initialized array.
unfoldable pub snapshot_bin : SnapshotWalk → SnapshotState → ℤ → Result QuoteError SnapshotState
snapshot_bin w s array_index = do
  array ← ok_or (find? (λ a. a.index ==ℤ array_index) w.arrays) insufficient_liquidity
  used ← ok_or (note_array s.used_array_indices array_index) insufficient_liquidity
  wanted_offset ← bin_offset s.active_id array.index
  entry ← ok_or (find? (λ e. e.0 == wanted_offset) array.bins) insufficient_liquidity
  charge_round w s used entry.1

unfoldable pub snapshot_round : SnapshotWalk → SnapshotState → Result QuoteError SnapshotState
snapshot_round w s = do
  let array_index = bin_array_index s.active_id
  initialized ← snapshot_initialized w.pair w.bitmap_extension array_index
  if initialized
      then snapshot_bin w s array_index
      else ok (record s { active_id = next_bin s.active_id w.swap_for_y })

unfoldable pub snapshot_rounds : ℕ → SnapshotWalk → SnapshotState → Result QuoteError SnapshotState
snapshot_rounds zero w s = ok s
snapshot_rounds (suc rounds) w s =
    if s.remaining == 0 then ok s else (snapshot_round w s >>= snapshot_rounds rounds w)

unfoldable pub quote_dlmm_snapshot_with_bitmap :
    ℕ
    → LbPairState
    → List ParsedBinArray
    → Option (List ℕ)
    → Bool
    → ℤ
    → Result QuoteError DlmmSnapshotQuote
quote_dlmm_snapshot_with_bitmap amount_in pair arrays bitmap_extension swap_for_y timestamp = do
  let variable =
      update_reference pair.active_id pair.variable_parameters pair.static_parameters timestamp
  on_input ← fee_on_input pair swap_for_y
  supported ← supports_limit_orders pair
  s ←
      snapshot_rounds max_quote_visited_bins_per_direction
        (record {
          pair = pair;
          arrays = arrays;
          bitmap_extension = bitmap_extension;
          swap_for_y = swap_for_y;
          fee_on_input = on_input;
          supports_limit_orders = supported;
        })
        (record {
          active_id = pair.active_id;
          variable = variable;
          remaining = amount_in;
          amount_out = 0;
          total_fee = 0;
          used_array_indices = [];
        })
  require (s.remaining == 0) insufficient_liquidity
  ok (record {
    quote = record { amount_in = amount_in; amount_out = s.amount_out; fee = s.total_fee };
    used_array_indices = s.used_array_indices;
  })

unfoldable pub quote_dlmm_snapshot_with_arrays :
    ℕ → LbPairState → List ParsedBinArray → Bool → ℤ → Result QuoteError DlmmSnapshotQuote
quote_dlmm_snapshot_with_arrays amount_in pair arrays swap_for_y timestamp =
    quote_dlmm_snapshot_with_bitmap amount_in pair arrays none swap_for_y timestamp

unfoldable pub quote_dlmm_snapshot :
    ℕ → LbPairState → List ParsedBinArray → Bool → ℤ → Result QuoteError QuoteResult
quote_dlmm_snapshot amount_in pair arrays swap_for_y timestamp = do
  snapshot ← quote_dlmm_snapshot_with_arrays amount_in pair arrays swap_for_y timestamp
  ok snapshot.quote
