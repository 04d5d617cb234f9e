-- ===== src/Accounts/Bytes.antt =====
-- programs/sol-arb-executor/src/quote/accounts.rs: reading little-endian integers at an offset.
use sol_arb_executor.Prelude.{
  ℕ, ◌+◌, ◌-◌, ◌*◌, ◌^◌, List, [], ◌∷◌, length, take, drop, get_elem?, leb, ltb, if◌then◌else◌,
}
use sol_arb_executor.Prelude.Int.{ℤ, pos, negsuc}
use sol_arb_executor.Errors.{QuoteError, invalid_input, Result, ok, err, ◌>>=◌, ok_or}
use sol_arb_executor.Word.{u16_size, fits}

abbrev pub discriminator_len : ℕ
discriminator_len = 8

-- `data.get(offset..offset + n)` as an array of `n` bytes.
unfoldable pub bytes : ℕ → List ℕ → ℕ → Result QuoteError (List ℕ)
bytes n data_bytes offset =
    if leb (offset + n) (length data_bytes)
    then ok (take n (drop offset data_bytes))
    else err invalid_input

-- `from_le_bytes`, unsigned.
unfoldable pub from_le : List ℕ → ℕ
from_le [] = 0
from_le (b ∷ bs) = b + 256 * from_le bs

-- The signed integer of `bits` bits that a bit pattern stands for.
unfoldable pub signed : ℕ → ℕ → ℤ
signed bits value = if ltb value (2 ^ (bits - 1)) then pos value else negsuc (2 ^ bits - value - 1)

unfoldable pub read_unsigned : ℕ → List ℕ → ℕ → Result QuoteError ℕ
read_unsigned n data_bytes offset = do raw ← bytes n data_bytes offset; ok (from_le raw)

unfoldable pub read_u16 : List ℕ → ℕ → Result QuoteError ℕ
read_u16 = read_unsigned 2

unfoldable pub read_u32 : List ℕ → ℕ → Result QuoteError ℕ
read_u32 = read_unsigned 4

unfoldable pub read_u64 : List ℕ → ℕ → Result QuoteError ℕ
read_u64 = read_unsigned 8

unfoldable pub read_u128 : List ℕ → ℕ → Result QuoteError ℕ
read_u128 = read_unsigned 16

unfoldable pub read_i32 : List ℕ → ℕ → Result QuoteError ℤ
read_i32 data_bytes offset = do value ← read_unsigned 4 data_bytes offset; ok (signed 32 value)

unfoldable pub read_i64 : List ℕ → ℕ → Result QuoteError ℤ
read_i64 data_bytes offset = do value ← read_unsigned 8 data_bytes offset; ok (signed 64 value)

-- `*data.get(offset).ok_or(QuoteError::InvalidInput)?`.
unfoldable pub read_byte : List ℕ → ℕ → Result QuoteError ℕ
read_byte data_bytes offset = ok_or (get_elem? data_bytes offset) invalid_input

-- `try_into::<u16>` of a u64.
unfoldable pub to_u16 : ℕ → Result QuoteError ℕ
to_u16 value = ok_or (fits u16_size value) invalid_input
