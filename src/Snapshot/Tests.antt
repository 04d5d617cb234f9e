-- ===== src/Snapshot/Tests.antt =====
-- A bin array that is parsed whole, and the two quotes on it.
use sol_arb_executor.Prelude.{
  ℕ, ◌+◌, ◌^◌, ◌≡◌, refl, true, false, List, [], ◌∷◌, ◌++◌, none, replicate, zero, suc, find?,
}
use sol_arb_executor.Prelude.Int.{pos, ◌*ℤ◌, ◌-ℤ◌}
use sol_arb_executor.Errors.{ok}
use sol_arb_executor.Word.{checked_sub, checked_add_u64, checked_add_u128, checked_mul_u128}
use sol_arb_executor.Quote.Types.{Bin}
use sol_arb_executor.Quote.Basic.{ceil_div, to_u64}
use sol_arb_executor.Quote.Dlmm.{
  dlmm_total_fee_rate, variable_fee, dlmm_quote_exact_in_partial, dlmm_quote_exact_in_impl,
  dlmm_bin_quote_capacity, quote_bins, quote_bin, fill_bin, charge_bin, add_totals, bin_max_out,
  amount_in_for_out, amount_out_for_in, excluded_fee_amount, included_fee_amount,
}
use sol_arb_executor.Accounts.Types.{AccountInfo, LbPairState}
use sol_arb_executor.Accounts.Bytes.{
  bytes, from_le, signed, read_unsigned, read_u64, read_u128, read_i64, read_byte,
}
use sol_arb_executor.Accounts.Bins.{
  parse_bin, parse_bin_array_index, bin_array_index, offset_in_array, bin_offset, in_default_range,
  default_bit, default_bitmap_contains,
}
use sol_arb_executor.Accounts.Volatility.{
  saturating_sub_i64, update_reference, abs_diff, update_volatility_accumulator,
  dlmm_fee_parameters, fee_on_input, supports_limit_orders,
}
use sol_arb_executor.Dynamic.Build.{usable_bin, note_array, next_bin}
use sol_arb_executor.Route.Direction.{quote_dlmm_from_accounts}
use sol_arb_executor.Snapshot.{
  ParsedBinArray, DlmmSnapshotQuote, parse_bins, parse_bin_array, snapshot_initialized,
  charge_round, snapshot_bin, snapshot_round, snapshot_rounds, quote_dlmm_snapshot_with_bitmap,
}
use sol_arb_executor.Snapshot.Same.{quote_dlmm_snapshot_with_bitmap-eq}

-- The data of a bin array of index 0 whose first bin has the price one and 2000 units of Y.
abbrev array_bytes : List ℕ
array_bytes =
    replicate 64 0
    ++ (208 ∷ 7 ∷ replicate 6 0)
    ++ (replicate 8 0 ++ 1 ∷ replicate 7 0)
    ++ replicate 10_048 0

abbrev account : AccountInfo
account = record {
  key = [];
  owner = [];
  is_signer = false;
  is_writable = true;
  executable = false;
  data_bytes = array_bytes;
}

-- The seventy bins: the first one and the empty ones.
abbrev empty_bin : Bin
empty_bin = record {
  price_q64 = 0;
  amount_x = 0;
  amount_y = 0;
  open_order_amount = 0;
  processed_order_remaining_amount = 0;
  limit_order_ask_side = false;
}

abbrev empty_bins : ℕ → ℕ → List (ℕ × Bin)
empty_bins zero first = []
empty_bins (suc n) first = (first, empty_bin) ∷ empty_bins n (first + 1)

abbrev array : ParsedBinArray
array = record {
  index = pos 0;
  bins = (0, record empty_bin { price_q64 = 2 ^ 64; amount_y = 2000 }) ∷ empty_bins 69 1;
}

array_read : parse_bin_array array_bytes ≡ ok array
unfolding parse_bin_array parse_bins parse_bin parse_bin_array_index bytes from_le signed
    read_unsigned read_u64 read_u128 read_i64 read_byte checked_add_u64
array_read = refl

abbrev pair : LbPairState
pair = record {
  static_parameters = record {
    base_factor = 10_000;
    filter_period = 30;
    decay_period = 600;
    reduction_factor = 5_000;
    variable_fee_control = 0;
    max_volatility_accumulator = 350_000;
    protocol_share = 0;
    base_fee_power_factor = 0;
    function_type = 1;
    collect_fee_mode = 0;
  };
  variable_parameters = record {
    volatility_accumulator = 0;
    volatility_reference = 0;
    index_reference = pos 0;
    last_update_timestamp = pos 0;
  };
  active_id = pos 0;
  bin_step = 10;
  bitmap = replicate 8 0 ++ 1 ∷ replicate 7 0;
  rewards_are_empty = true;
}

abbrev snapshot : DlmmSnapshotQuote
snapshot = record {
  quote = record { amount_in = 1500; amount_out = 1498; fee = 2 };
  used_array_indices = pos 0 ∷ [];
}

quoted : quote_dlmm_snapshot_with_bitmap 1500 pair (array ∷ []) none true (pos 100) ≡ ok snapshot
unfolding quote_dlmm_snapshot_with_bitmap snapshot_rounds snapshot_round snapshot_bin charge_round
    snapshot_initialized usable_bin note_array next_bin find? bin_array_index offset_in_array
    bin_offset in_default_range default_bit default_bitmap_contains saturating_sub_i64
    update_reference abs_diff update_volatility_accumulator dlmm_fee_parameters fee_on_input
    supports_limit_orders dlmm_total_fee_rate variable_fee dlmm_quote_exact_in_partial
    dlmm_quote_exact_in_impl dlmm_bin_quote_capacity quote_bins quote_bin fill_bin charge_bin
    add_totals bin_max_out amount_in_for_out amount_out_for_in excluded_fee_amount
    included_fee_amount ceil_div to_u64 checked_sub checked_add_u64 checked_add_u128
    checked_mul_u128 ◌*ℤ◌ ◌-ℤ◌
quoted = refl

quote_dlmm_snapshot_with_bitmap-eq_example :
    quote_dlmm_from_accounts 1500 pair (account ∷ []) none true (pos 100)
    ≡ ok (record { amount_out = 1498; used_indices = pos 0 ∷ [] })
quote_dlmm_snapshot_with_bitmap-eq_example =
    quote_dlmm_snapshot_with_bitmap-eq 1500 pair (account ∷ []) (array ∷ []) none true (pos 100)
      (array_read, tt) quoted
