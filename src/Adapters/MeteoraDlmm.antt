-- ===== src/Adapters/MeteoraDlmm.antt =====
-- programs/sol-arb-executor/src/adapters/meteora_dlmm.rs: the accounts of a DLMM swap, their checks,
-- and the instruction.
pub mod Swap
use sol_arb_executor.Prelude.{ℕ, List, [], ◌∷◌, ◌++◌, map, Bool, true, false, if◌then◌else◌}
use sol_arb_executor.Errors.{
  ArbError, invalid_program_id, invalid_token_mint, invalid_pool, Result, ok, err, ◌>>=◌, ◌>>◌,
  require,
}
use sol_arb_executor.Accounts.Types.{AccountInfo}
use sol_arb_executor.Validate.Constants.{meteora_dlmm_program_id, meteora_swap2_discriminator}
use sol_arb_executor.Validate.Platform.{AccountMeta, Platform}
use sol_arb_executor.Validate.Layout.{same_bytes, require_keys_eq, parse_meteora_pair}
use sol_arb_executor.Validate.BinArrays.{validate_bin_arrays}
use sol_arb_executor.Adapters.Encode.{to_le, new_meta, new_readonly}

pub record MeteoraAccounts : Type 0 where
  pub lb_pair : AccountInfo
  pub bin_array_bitmap_extension : AccountInfo
  pub reserve_x : AccountInfo
  pub reserve_y : AccountInfo
  pub user_token_in : AccountInfo
  pub user_token_out : AccountInfo
  pub token_x_mint : AccountInfo
  pub token_y_mint : AccountInfo
  pub oracle : AccountInfo
  pub host_fee_in : AccountInfo
  pub user : AccountInfo
  pub token_x_program : AccountInfo
  pub token_y_program : AccountInfo
  pub memo_program : AccountInfo
  pub event_authority : AccountInfo
  pub program : AccountInfo

-- The body of the loop over the two optional accounts: the key of the program stands for none.
unfoldable pub validate_optional : AccountInfo → Result ArbError (Unit {0})
validate_optional optional =
    if same_bytes optional.key meteora_dlmm_program_id
    then ok tt
    else require_keys_eq optional.owner meteora_dlmm_program_id invalid_pool

unfoldable pub validate : MeteoraAccounts → List AccountInfo → Result ArbError (Unit {0})
validate accounts bin_arrays = do
  require_keys_eq accounts.program.key meteora_dlmm_program_id invalid_program_id
  require accounts.program.executable invalid_program_id
  require_keys_eq accounts.lb_pair.owner meteora_dlmm_program_id invalid_pool
  pair ← parse_meteora_pair accounts.lb_pair.data_bytes
  require_keys_eq pair.token_x_mint accounts.token_x_mint.key invalid_token_mint
  require_keys_eq pair.token_y_mint accounts.token_y_mint.key invalid_token_mint
  require_keys_eq pair.reserve_x accounts.reserve_x.key invalid_pool
  require_keys_eq pair.reserve_y accounts.reserve_y.key invalid_pool
  validate_optional accounts.bin_array_bitmap_extension
  validate_optional accounts.host_fee_in
  validate_bin_arrays bin_arrays accounts.lb_pair.key

unfoldable pub optional_meta : AccountInfo → AccountMeta
optional_meta account =
    if same_bytes account.key meteora_dlmm_program_id
    then new_readonly account false
    else new_meta account false

-- The metas before those of the bin arrays.
unfoldable pub swap2_metas : MeteoraAccounts → List AccountMeta
swap2_metas accounts =
    new_meta accounts.lb_pair false
    ∷ optional_meta accounts.bin_array_bitmap_extension
    ∷ new_meta accounts.reserve_x false
    ∷ new_meta accounts.reserve_y false
    ∷ new_meta accounts.user_token_in false
    ∷ new_meta accounts.user_token_out false
    ∷ new_readonly accounts.token_x_mint false
    ∷ new_readonly accounts.token_y_mint false
    ∷ new_meta accounts.oracle false
    ∷ optional_meta accounts.host_fee_in
    ∷ new_readonly accounts.user true
    ∷ new_readonly accounts.token_x_program false
    ∷ new_readonly accounts.token_y_program false
    ∷ new_readonly accounts.memo_program false
    ∷ new_readonly accounts.event_authority false
    ∷ new_readonly accounts.program false
    ∷ []

unfoldable pub swap2_infos : MeteoraAccounts → List AccountInfo
swap2_infos accounts =
    accounts.lb_pair ∷ accounts.bin_array_bitmap_extension ∷ accounts.reserve_x ∷ accounts.reserve_y
    ∷ accounts.user_token_in ∷ accounts.user_token_out ∷ accounts.token_x_mint
    ∷ accounts.token_y_mint ∷ accounts.oracle ∷ accounts.host_fee_in ∷ accounts.user
    ∷ accounts.token_x_program ∷ accounts.token_y_program ∷ accounts.memo_program
    ∷ accounts.event_authority ∷ accounts.program ∷ []

-- The data of the instruction: it ends with two empty slices of remaining accounts.
unfoldable pub swap2_data : ℕ → ℕ → List ℕ
swap2_data amount_in min_amount_out =
    meteora_swap2_discriminator
    ++ to_le 8 amount_in
    ++ to_le 8 min_amount_out
    ++ to_le 4 2
    ++ 0 ∷ 0 ∷ 1 ∷ 0 ∷ []

module _ {Ledger : Type 0} (p : Platform Ledger) where
  unfoldable pub swap2 :
      MeteoraAccounts → List AccountInfo → ℕ → ℕ → Ledger → Result ArbError Ledger
  swap2 accounts bin_arrays amount_in min_amount_out ledger = do
    validate accounts bin_arrays
    p.invoke
        (record {
          program_id = meteora_dlmm_program_id;
          accounts = swap2_metas accounts ++ map (λ account. new_meta account false) bin_arrays;
          instruction_data = swap2_data amount_in min_amount_out;
        })
        (swap2_infos accounts ++ bin_arrays) ledger
