-- ===== src/Handlers/Market.antt =====
-- The state of the market that the two selecting instructions read: `parse_market` of
-- dynamic_amount.rs, and `validate_quote_accounts` of best_direction.rs.
use sol_arb_executor.Prelude.{
  ℕ, List, [], ◌∷◌, Bool, Option, none, some, length, leb, if◌then◌else◌,
}
use sol_arb_executor.Errors.{
  ArbError, invalid_account_data, arithmetic_overflow, best_direction_quote_incomplete,
  invalid_remaining_accounts, invalid_pool, Result, ok, ◌>>=◌, ◌>>◌, require, ok_or, map_err,
}
use sol_arb_executor.Word.{checked_add_u64}
use sol_arb_executor.Accounts.Types.{AccountInfo, PumpFees}
use sol_arb_executor.Accounts.Pump
use sol_arb_executor.Accounts.Pump.{
  parse_pump_global_fees, select_pump_fees_from_data, token_amount,
}
use sol_arb_executor.Accounts.Pair.{parse_lb_pair, all_zero}
use sol_arb_executor.Dynamic.Types.{MarketState}
use sol_arb_executor.Validate.Constants.{
  pump_swap_program_id, pump_program_id, pump_fee_program_id, meteora_dlmm_program_id,
  max_best_direction_bin_arrays,
}
use sol_arb_executor.Validate.Platform.{Platform}
use sol_arb_executor.Validate.Layout.{same_bytes, require_keys_eq, parse_meteora_pair}
use sol_arb_executor.Validate.BinArrays.{validate_bin_arrays}
use sol_arb_executor.Adapters.PumpSwap
use sol_arb_executor.Handlers.Context.{ExecuteRoute, pump_accounts}

-- b"pool-authority", b"global_config", b"fee_config" and b"bitmap".
abbrev pub pool_authority_seed : List ℕ
pool_authority_seed =
    112 ∷ 111 ∷ 111 ∷ 108 ∷ 45 ∷ 97 ∷ 117 ∷ 116 ∷ 104 ∷ 111 ∷ 114 ∷ 105 ∷ 116 ∷ 121 ∷ []

abbrev pub global_config_seed : List ℕ
global_config_seed = 103 ∷ 108 ∷ 111 ∷ 98 ∷ 97 ∷ 108 ∷ 95 ∷ 99 ∷ 111 ∷ 110 ∷ 102 ∷ 105 ∷ 103 ∷ []

abbrev pub fee_config_seed : List ℕ
fee_config_seed = 102 ∷ 101 ∷ 101 ∷ 95 ∷ 99 ∷ 111 ∷ 110 ∷ 102 ∷ 105 ∷ 103 ∷ []

abbrev pub bitmap_seed : List ℕ
bitmap_seed = 98 ∷ 105 ∷ 116 ∷ 109 ∷ 97 ∷ 112 ∷ []

-- The data of the bitmap extension, which the key of the DLMM program says is absent.
unfoldable pub bitmap_extension : ExecuteRoute → Option (List ℕ)
bitmap_extension accounts =
    if same_bytes accounts.meteora_bin_array_bitmap_extension.key meteora_dlmm_program_id
    then none
    else some accounts.meteora_bin_array_bitmap_extension.data_bytes

-- A pool whose coin creator is all zeros charges no creator fee.
unfoldable pub without_creator : Bool → PumpFees → PumpFees
without_creator no_creator fees = if no_creator then record fees { creator_fee_bps = 0 } else fees

module _ {Ledger : Type 0} (p : Platform Ledger) where
  unfoldable pub parse_market : ExecuteRoute → Result ArbError MarketState
  parse_market accounts = do
    let target = accounts.target_mint.info.key
    pool ← map_err (Pump.parse_pump_pool accounts.pump_pool.data_bytes) invalid_account_data
    pump_base_reserve ←
        map_err (token_amount accounts.pump_pool_base_token_account.data_bytes) invalid_account_data
    pump_quote_reserve ←
        map_err (token_amount accounts.pump_pool_quote_token_account.data_bytes)
          invalid_account_data
    effective_quote_reserve ←
        ok_or (checked_add_u64 pump_quote_reserve pool.virtual_quote_reserves) arithmetic_overflow
    let expected_pump_creator =
        p.find_program_address (pool_authority_seed ∷ target ∷ []) pump_program_id
    global_fees ←
        map_err (parse_pump_global_fees accounts.pump_global_config.data_bytes) invalid_account_data
    selected ←
        map_err
          (select_pump_fees_from_data accounts.pump_fee_config.data_bytes global_fees
            (same_bytes pool.creator expected_pump_creator) accounts.target_mint.supply
            pump_base_reserve effective_quote_reserve)
          best_direction_quote_incomplete
    pair ← map_err (parse_lb_pair accounts.meteora_lb_pair.data_bytes) invalid_account_data
    prefix ← parse_meteora_pair accounts.meteora_lb_pair.data_bytes
    ok (record {
      pump_base_reserve = pump_base_reserve;
      pump_quote_reserve = pump_quote_reserve;
      pump_virtual_quote_reserve = pool.virtual_quote_reserves;
      pump_fees = without_creator (all_zero pool.coin_creator) selected;
      pair = pair;
      target_is_x = same_bytes prefix.token_x_mint target;
    })

  -- The check of the bitmap extension, unless it is absent.
  unfoldable pub validate_bitmap_extension : ExecuteRoute → Result ArbError (Unit {0})
  validate_bitmap_extension accounts =
      let bitmap = accounts.meteora_bin_array_bitmap_extension in
      if same_bytes bitmap.key meteora_dlmm_program_id then ok tt else (do
        require_keys_eq bitmap.owner meteora_dlmm_program_id invalid_pool
        require_keys_eq bitmap.key
            (p.find_program_address (bitmap_seed ∷ accounts.meteora_lb_pair.key ∷ [])
              meteora_dlmm_program_id)
            invalid_pool)

  unfoldable pub validate_quote_accounts :
      ExecuteRoute → List AccountInfo → Result ArbError (Unit {0})
  validate_quote_accounts accounts bin_arrays = do
    PumpSwap.validate p (pump_accounts accounts)
    require (leb (length bin_arrays) max_best_direction_bin_arrays) invalid_remaining_accounts
    require_keys_eq accounts.pump_global_config.owner pump_swap_program_id invalid_pool
    require_keys_eq accounts.pump_fee_config.owner pump_fee_program_id invalid_pool
    require_keys_eq accounts.pump_global_config.key
        (p.find_program_address (global_config_seed ∷ []) pump_swap_program_id) invalid_pool
    require_keys_eq accounts.pump_fee_config.key
        (p.find_program_address (fee_config_seed ∷ pump_swap_program_id ∷ []) pump_fee_program_id)
        invalid_pool
    validate_bitmap_extension accounts
    validate_bin_arrays bin_arrays accounts.meteora_lb_pair.key
