-- ===== src/Accounts/Bins.antt =====
-- programs/sol-arb-executor/src/quote/accounts.rs: bins, their arrays, and the bitmaps that say which
-- arrays are initialized.
pub mod Inside
use sol_arb_executor.Prelude.{
  ℕ, zero, suc, ◌+◌, ◌-◌, ◌*◌, ◌/◌, ◌%◌, ◌^◌, List, [], ◌∷◌, Bool, false, not, ◌&&◌, Option, none,
  some, leb, ltb, ◌==◌, if◌then◌else◌,
}
use sol_arb_executor.Prelude.Int.{ℤ, pos, negsuc, ◌-ℤ◌, ◌*ℤ◌, leb_ℤ}
use sol_arb_executor.Errors.{
  QuoteError, invalid_input, math_overflow, Result, ok, err, ◌>>=◌, ok_or,
}
use sol_arb_executor.Quote.Types.{Bin}
use sol_arb_executor.Accounts.Bytes.{discriminator_len, read_u64, read_u128, read_i64, read_byte}

abbrev pub bin_size : ℕ
bin_size = 144

abbrev pub bin_array_header_size : ℕ
bin_array_header_size = 48

-- An i64 result, if it is in range.
abbrev pub fits_i64 : ℤ → Option ℤ
fits_i64 z = if leb_ℤ (negsuc (2 ^ 63 - 1)) z && leb_ℤ z (pos (2 ^ 63 - 1)) then some z else none

-- The offset is far below the largest usize for the seventy bins of an array.
unfoldable pub parse_bin : List ℕ → ℕ → ℕ → Result QuoteError Bin
parse_bin data_bytes bins_base bin_index = do
  let offset = bins_base + bin_index * bin_size
  amount_x ← read_u64 data_bytes offset
  amount_y ← read_u64 data_bytes (offset + 8)
  price_q64 ← read_u128 data_bytes (offset + 16)
  open_order_amount ← read_u64 data_bytes (offset + 112)
  processed_order_remaining_amount ← read_u64 data_bytes (offset + 128)
  side ← read_byte data_bytes (offset + 140)
  ok (record {
    price_q64 = price_q64;
    amount_x = amount_x;
    amount_y = amount_y;
    open_order_amount = open_order_amount;
    processed_order_remaining_amount = processed_order_remaining_amount;
    limit_order_ask_side = not (side == 0);
  })

unfoldable pub parse_bin_array_index : List ℕ → Result QuoteError ℤ
parse_bin_array_index data_bytes = read_i64 data_bytes discriminator_len

-- `i64::from(bin_id).div_euclid(70)`: rounded down on both sides of zero.
unfoldable pub bin_array_index : ℤ → ℤ
bin_array_index (pos n) = pos (n / 70)
bin_array_index (negsuc n) = negsuc (n / 70)

-- `(0..70).contains(&offset)` and the conversion to usize.
unfoldable pub offset_in_array : ℤ → Result QuoteError ℕ
offset_in_array (pos n) = if ltb n 70 then ok n else err invalid_input
offset_in_array (negsuc n) = err invalid_input

unfoldable pub bin_offset : ℤ → ℤ → Result QuoteError ℕ
bin_offset bin_id array_index = do
  first ← ok_or (fits_i64 (array_index *ℤ pos 70)) math_overflow
  offset ← ok_or (fits_i64 (bin_id -ℤ first)) math_overflow
  offset_in_array offset

unfoldable pub parse_bin_for_id : List ℕ → ℤ → ℤ → Result QuoteError Bin
parse_bin_for_id data_bytes bin_id array_index = do
  bin_index ← bin_offset bin_id array_index
  parse_bin data_bytes (discriminator_len + bin_array_header_size) bin_index

-- `word & (1 << bit) != 0`.
abbrev pub bit_is_set : ℕ → ℕ → Bool
bit_is_set word bit = word / 2 ^ bit % 2 == 1

-- `bitmap[index]`, always inside the sixteen words.
abbrev pub word_at : List ℕ → ℕ → ℕ
word_at [] i = 0
word_at (w ∷ ws) zero = w
word_at (w ∷ ws) (suc i) = word_at ws i

-- `(-512..=511).contains(&array_index)`.
unfoldable pub in_default_range : ℤ → Bool
in_default_range (pos n) = leb n 511
in_default_range (negsuc n) = leb n 511

-- `(array_index + 512) as usize`, for an index in that range.
unfoldable pub default_bit : ℤ → ℕ
default_bit (pos n) = n + 512
default_bit (negsuc n) = 511 - n

unfoldable pub default_bitmap_contains : List ℕ → ℤ → Bool
default_bitmap_contains bitmap array_index =
    if not (in_default_range array_index)
    then false
    else let bit = default_bit array_index in bit_is_set (word_at bitmap (bit / 64)) (bit % 64)

-- The read at `relative` of one side of the extension, which starts at `side_offset`.
unfoldable pub extension_side_contains : List ℕ → ℕ → ℕ → Result QuoteError Bool
extension_side_contains data_bytes side_offset relative =
    let chunk = relative / 512 - 1 in
    let bit = relative % 512 in
    if not (ltb chunk 12) then ok false else (do
      word ← read_u64 data_bytes (side_offset + chunk * 64 + bit / 64 * 8)
      ok (bit_is_set word (bit % 64)))

-- For a negative index the distance is `-(array_index + 1)`, which is `n` for `negsuc n`.
unfoldable pub extension_bitmap_contains : List ℕ → ℤ → Result QuoteError Bool
extension_bitmap_contains data_bytes (pos n) =
    if leb n 511 then ok false else extension_side_contains data_bytes (8 + 32) n
extension_bitmap_contains data_bytes (negsuc n) =
    if leb n 511 then ok false else extension_side_contains data_bytes (8 + 32 + 12 * 8 * 8) n
