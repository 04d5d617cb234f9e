-- ===== src/Adapters/PumpSwap.antt =====
-- programs/sol-arb-executor/src/adapters/pump_swap.rs: the accounts of a PumpSwap trade and their
-- checks.
pub mod Valid
pub mod Invoke
pub mod Trade
use sol_arb_executor.Prelude.{
  ℕ, List, [], ◌∷◌, ◌++◌, Bool, true, false, not, ◌&&◌, length, leb, if◌then◌else◌, replicate,
}
use sol_arb_executor.Errors.{
  ArbError, invalid_program_id, invalid_token_mint, invalid_pool, invalid_cashback_account, Result,
  ok, err, ◌>>=◌, ◌>>◌, require,
}
use sol_arb_executor.Accounts.Types.{AccountInfo}
use sol_arb_executor.Validate.Constants.{
  pump_swap_program_id, pump_fee_program_id, pump_buy_exact_quote_in_discriminator,
  pump_sell_discriminator, user_volume_accumulator_discriminator,
}
use sol_arb_executor.Validate.Platform.{AccountMeta, Platform}
use sol_arb_executor.Validate.Layout.{
  same_bytes, require_keys_eq, slice, slice_is, PumpPoolPrefix, parse_pump_pool,
}
use sol_arb_executor.Adapters.Encode.{to_le, new_meta, new_readonly}

abbrev pub user_volume_accumulator_current_len : ℕ
user_volume_accumulator_current_len = 137

abbrev pub token_account_len : ℕ
token_account_len = 165

pub record PumpSwapAccounts : Type 0 where
  pub pool : AccountInfo
  pub user : AccountInfo
  pub global_config : AccountInfo
  pub base_mint : AccountInfo
  pub quote_mint : AccountInfo
  pub user_base_token_account : AccountInfo
  pub user_quote_token_account : AccountInfo
  pub pool_base_token_account : AccountInfo
  pub pool_quote_token_account : AccountInfo
  pub protocol_fee_recipient : AccountInfo
  pub protocol_fee_recipient_token_account : AccountInfo
  pub base_token_program : AccountInfo
  pub quote_token_program : AccountInfo
  pub system_program : AccountInfo
  pub associated_token_program : AccountInfo
  pub event_authority : AccountInfo
  pub program : AccountInfo
  pub coin_creator_vault_ata : AccountInfo
  pub coin_creator_vault_authority : AccountInfo
  pub global_volume_accumulator : AccountInfo
  pub user_volume_accumulator : AccountInfo
  pub user_volume_accumulator_wsol_ata : AccountInfo
  pub fee_config : AccountInfo
  pub fee_program : AccountInfo
  pub pool_v2 : AccountInfo
  pub buyback_fee_recipient : AccountInfo
  pub buyback_fee_recipient_token_account : AccountInfo

-- `Pubkey::default()`.
abbrev pub default_key : List ℕ
default_key = replicate 32 0

-- `pool.coin_creator != Pubkey::default()`.
abbrev pub has_creator : PumpPoolPrefix → Bool
has_creator pool = not (same_bytes pool.coin_creator default_key)

-- b"pool-v2" and b"user_volume_accumulator".
abbrev pub pool_v2_seed : List ℕ
pool_v2_seed = 112 ∷ 111 ∷ 111 ∷ 108 ∷ 45 ∷ 118 ∷ 50 ∷ []

abbrev pub user_volume_accumulator_seed : List ℕ
user_volume_accumulator_seed =
    117 ∷ 115 ∷ 101 ∷ 114 ∷ 95 ∷ 118 ∷ 111 ∷ 108 ∷ 117 ∷ 109 ∷ 101 ∷ 95 ∷ 97 ∷ 99 ∷ 99 ∷ 117 ∷ 109
    ∷ 117 ∷ 108 ∷ 97 ∷ 116 ∷ 111 ∷ 114 ∷ []

module _ {Ledger : Type 0} (p : Platform Ledger) where
  -- The check of `pool_v2`, which a pool without a creator skips.
  unfoldable pub validate_pool_v2 : PumpPoolPrefix → PumpSwapAccounts → Result ArbError (Unit {0})
  validate_pool_v2 pool accounts =
      if has_creator pool
      then require_keys_eq
          (p.find_program_address (pool_v2_seed ∷ accounts.base_mint.key ∷ []) pump_swap_program_id)
          accounts.pool_v2.key invalid_pool
      else ok tt

  -- The check of the two accounts of the cashback.
  unfoldable pub validate_cashback : PumpPoolPrefix → PumpSwapAccounts → Result ArbError (Unit {0})
  validate_cashback pool accounts =
      if pool.is_cashback_coin
      then (do
        let expected_user_volume_accumulator =
            p.find_program_address (user_volume_accumulator_seed ∷ accounts.user.key ∷ [])
              pump_swap_program_id
        require_keys_eq expected_user_volume_accumulator accounts.user_volume_accumulator.key
            invalid_cashback_account
        require_keys_eq
            (p.find_program_address
              (expected_user_volume_accumulator ∷ accounts.quote_token_program.key
                ∷ accounts.quote_mint.key ∷ [])
              p.associated_token_program_id)
            accounts.user_volume_accumulator_wsol_ata.key invalid_cashback_account)
      else ok tt

  unfoldable pub validate : PumpSwapAccounts → Result ArbError (Unit {0})
  validate accounts = do
    require_keys_eq accounts.program.key pump_swap_program_id invalid_program_id
    require accounts.program.executable invalid_program_id
    require_keys_eq accounts.fee_program.key pump_fee_program_id invalid_program_id
    require accounts.fee_program.executable invalid_program_id
    require_keys_eq accounts.pool.owner pump_swap_program_id invalid_pool
    pool ← parse_pump_pool accounts.pool.data_bytes
    require_keys_eq pool.base_mint accounts.base_mint.key invalid_token_mint
    require_keys_eq pool.quote_mint accounts.quote_mint.key invalid_token_mint
    require_keys_eq pool.base_vault accounts.pool_base_token_account.key invalid_pool
    require_keys_eq pool.quote_vault accounts.pool_quote_token_account.key invalid_pool
    validate_pool_v2 pool accounts
    validate_cashback pool accounts

-- `accumulator_is_valid`.
unfoldable pub accumulator_is_valid : PumpSwapAccounts → Bool
accumulator_is_valid accounts =
    let data_bytes = accounts.user_volume_accumulator.data_bytes in
    same_bytes accounts.user_volume_accumulator.owner pump_swap_program_id
    && leb user_volume_accumulator_current_len (length data_bytes)
    && slice_is (slice 8 data_bytes 0) user_volume_accumulator_discriminator
    && slice_is (slice 32 data_bytes 8) accounts.user.key

-- `cashback_ata_is_valid`.
unfoldable pub cashback_ata_is_valid : PumpSwapAccounts → Bool
cashback_ata_is_valid accounts =
    let data_bytes = accounts.user_volume_accumulator_wsol_ata.data_bytes in
    same_bytes accounts.user_volume_accumulator_wsol_ata.owner accounts.quote_token_program.key
    && leb token_account_len (length data_bytes)
    && slice_is (slice 32 data_bytes 0) accounts.quote_mint.key
    && slice_is (slice 32 data_bytes 32) accounts.user_volume_accumulator.key

unfoldable pub cashback_sell_is_ready : PumpSwapAccounts → Result ArbError Bool
cashback_sell_is_ready accounts = do
  pool ← parse_pump_pool accounts.pool.data_bytes
  ok (
      if not pool.is_cashback_coin
      then true
      else accumulator_is_valid accounts && cashback_ata_is_valid accounts)
