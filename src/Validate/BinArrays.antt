-- ===== src/Validate/BinArrays.antt =====
-- programs/sol-arb-executor/src/utils/account_validation.rs: the checks of the bin arrays that an
-- instruction is given.
pub mod Distinct
use sol_arb_executor.Prelude.{ℕ, ◌++◌, List, [], ◌∷◌, Bool, not, ◌&&◌, none, some, length, ltb, leb}
use sol_arb_executor.Prelude.Int.{ℤ, ◌==ℤ◌}
use sol_arb_executor.Errors.{
  ArbError, invalid_bin_array, invalid_remaining_accounts, Result, ok, err, ◌>>=◌, ◌>>◌, require,
}
use sol_arb_executor.Accounts.Types.{AccountInfo}
use sol_arb_executor.Accounts.Bytes.{from_le, signed}
use sol_arb_executor.Validate.Constants.{meteora_dlmm_program_id, max_meteora_bin_arrays}
use sol_arb_executor.Validate.Layout.{slice, require_keys_eq, validate_bin_array_data}

unfoldable pub validate_bin_array_count : ℕ → Result ArbError (Unit {0})
validate_bin_array_count count = do
  require (ltb 0 count) invalid_remaining_accounts
  require (leb count max_meteora_bin_arrays) invalid_remaining_accounts

-- The i64 at the bytes 8 to 16.
unfoldable pub array_index : List ℕ → Result ArbError ℤ
array_index data_bytes = elim (slice 8 data_bytes 8) [
  | none ↦ err invalid_bin_array
  | some raw ↦ ok (signed 64 (from_le raw))
]

-- The loop over the accounts before.
unfoldable pub differs_from : ℤ → List AccountInfo → Result ArbError (Unit {0})
differs_from index [] = ok tt
differs_from index (account ∷ previous) = do
  previous_index ← array_index account.data_bytes
  require (not (index ==ℤ previous_index)) invalid_bin_array
  differs_from index previous

-- The body of the loop over the accounts.
unfoldable pub validate_bin_array :
    List ℕ → List AccountInfo → AccountInfo → Result ArbError (Unit {0})
validate_bin_array lb_pair previous account = do
  require_keys_eq account.owner meteora_dlmm_program_id invalid_bin_array
  require (account.is_writable && not account.is_signer) invalid_bin_array
  validate_bin_array_data account.data_bytes lb_pair
  index ← array_index account.data_bytes
  differs_from index previous

unfoldable pub validate_each :
    List ℕ → List AccountInfo → List AccountInfo → Result ArbError (Unit {0})
validate_each lb_pair previous [] = ok tt
validate_each lb_pair previous (account ∷ accounts) = do
  validate_bin_array lb_pair previous account
  validate_each lb_pair (previous ++ account ∷ []) accounts

unfoldable pub validate_bin_arrays : List AccountInfo → List ℕ → Result ArbError (Unit {0})
validate_bin_arrays accounts lb_pair = do
  validate_bin_array_count (length accounts)
  validate_each lb_pair [] accounts
