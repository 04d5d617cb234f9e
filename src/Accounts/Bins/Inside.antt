-- ===== src/Accounts/Bins/Inside.antt =====
-- `bin_array_index` and `bin_offset` of quote/accounts.rs: a bin and its place in its array.
use sol_arb_executor.Prelude.{ℕ, ◌+◌, ◌-◌, ◌*◌, ◌/◌, ◌%◌, ◌^◌, ◌≤◌, ◌<◌, ◌≡◌, arith, some, lt→ltb}
use sol_arb_executor.Prelude.Int.{ℤ, pos, negsuc, ◌+ℤ◌, ◌-ℤ◌, ◌*ℤ◌}
use sol_arb_executor.Errors.{ok}
use sol_arb_executor.Accounts.Bins.{bin_array_index, offset_in_array, bin_offset, fits_i64}

-- The distance from zero of an i32.
abbrev pub magnitude : ℤ → ℕ
magnitude (pos n) = n
magnitude (negsuc n) = n + 1

scaled_pos : (n : ℕ) → pos n *ℤ pos 70 ≡ pos (n * 70)
unfolding ◌*ℤ◌
scaled_pos n = ground arith

scaled_negsuc : (n : ℕ) → negsuc n *ℤ pos 70 ≡ negsuc (n * 70 + 69)
unfolding ◌*ℤ◌
scaled_negsuc n = ground arith

offset_pos : (n : ℕ) → pos n -ℤ pos (n / 70 * 70) ≡ pos (n % 70)
unfolding ◌-ℤ◌
offset_pos n = ground arith

offset_negsuc : (n : ℕ) → negsuc n -ℤ negsuc (n / 70 * 70 + 69) ≡ pos (69 - n % 70)
unfolding ◌-ℤ◌
offset_negsuc n = ground arith

back_pos : (n : ℕ) → pos (n / 70 * 70) +ℤ pos (n % 70) ≡ pos n
unfolding ◌+ℤ◌
back_pos n = ground arith

back_negsuc : (n : ℕ) → negsuc (n / 70 * 70 + 69) +ℤ pos (69 - n % 70) ≡ negsuc n
unfolding ◌+ℤ◌
back_negsuc n = ground arith

fits_i64-magnitude : (z : ℤ) → magnitude z ≤ 2 ^ 32 → fits_i64 z ≡ some z
fits_i64-magnitude (pos n) h = ground arith
fits_i64-magnitude (negsuc n) h = ground arith

-- For every bin id that is an i32, the offset of the bin in the array of its index exists, is below
-- seventy, and leads back to the bin id.
pub bin_offset-bin_array_index :
    (z : ℤ)
    → magnitude z ≤ 2 ^ 31
    → (k : ℕ) × (bin_offset z (bin_array_index z) ≡ ok k)
      × (k < 70)
      × (bin_array_index z *ℤ pos 70 +ℤ pos k ≡ z)
unfolding bin_offset bin_array_index offset_in_array
bin_offset-bin_array_index (pos n) small = (
  n % 70,
  rw (
    scaled_pos (n / 70),
    fits_i64-magnitude (pos (n / 70 * 70)) (omega arith),
    offset_pos n,
    fits_i64-magnitude (pos (n % 70)) (omega arith),
    lt→ltb (n % 70) 70 (omega arith),
  ),
  omega arith,
  rw (scaled_pos (n / 70)) (back_pos n),
)
bin_offset-bin_array_index (negsuc n) small = (
  69 - n % 70,
  rw (
    scaled_negsuc (n / 70),
    fits_i64-magnitude (negsuc (n / 70 * 70 + 69)) (omega arith),
    offset_negsuc n,
    fits_i64-magnitude (pos (69 - n % 70)) (omega arith),
    lt→ltb (69 - n % 70) 70 (omega arith),
  ),
  omega arith,
  rw (scaled_negsuc (n / 70)) (back_negsuc n),
)
