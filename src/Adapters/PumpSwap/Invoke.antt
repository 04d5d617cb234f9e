-- ===== src/Adapters/PumpSwap/Invoke.antt =====
-- programs/sol-arb-executor/src/adapters/pump_swap.rs: the two instructions.
use sol_arb_executor.Prelude.{ℕ, List, [], ◌∷◌, ◌++◌, Bool, true, false, not, if◌then◌else◌}
use sol_arb_executor.Errors.{ArbError, invalid_cashback_account, Result, ok, ◌>>=◌, ◌>>◌, require}
use sol_arb_executor.Accounts.Types.{AccountInfo}
use sol_arb_executor.Validate.Constants.{
  pump_swap_program_id, pump_buy_exact_quote_in_discriminator, pump_sell_discriminator,
}
use sol_arb_executor.Validate.Platform.{AccountMeta, Platform}
use sol_arb_executor.Validate.Layout.{parse_pump_pool}
use sol_arb_executor.Adapters.Encode.{to_le, new_meta, new_readonly}
use sol_arb_executor.Adapters.PumpSwap.{
  PumpSwapAccounts, has_creator, validate, cashback_sell_is_ready,
}

-- The metas that depend on the two tests of the pool: is it a cashback coin, has it a creator.
unfoldable pub remaining_metas : PumpSwapAccounts → Bool → Bool → Bool → List AccountMeta
remaining_metas accounts is_cashback_coin with_creator is_buy =
    (if is_cashback_coin
      then new_meta accounts.user_volume_accumulator_wsol_ata false
        ∷ (if not is_buy then new_meta accounts.user_volume_accumulator false ∷ [] else [])
      else [])
    ++ (if with_creator then new_readonly accounts.pool_v2 false ∷ [] else [])
    ++ new_readonly accounts.buyback_fee_recipient false
      ∷ new_meta accounts.buyback_fee_recipient_token_account false
      ∷ []

unfoldable pub append_current_remaining_accounts :
    PumpSwapAccounts → List AccountMeta → Bool → Result ArbError (List AccountMeta)
append_current_remaining_accounts accounts metas is_buy = do
  pool ← parse_pump_pool accounts.pool.data_bytes
  ok (metas ++ remaining_metas accounts pool.is_cashback_coin (has_creator pool) is_buy)

-- `infos`, for the same two tests.
unfoldable pub invoke_infos : PumpSwapAccounts → Bool → Bool → Bool → List AccountInfo
invoke_infos accounts is_cashback_coin with_creator include_volume_accounts =
    (accounts.pool ∷ accounts.user ∷ accounts.global_config ∷ accounts.base_mint
      ∷ accounts.quote_mint ∷ accounts.user_base_token_account ∷ accounts.user_quote_token_account
      ∷ accounts.pool_base_token_account ∷ accounts.pool_quote_token_account
      ∷ accounts.protocol_fee_recipient ∷ accounts.protocol_fee_recipient_token_account
      ∷ accounts.base_token_program ∷ accounts.quote_token_program ∷ accounts.system_program
      ∷ accounts.associated_token_program ∷ accounts.event_authority ∷ accounts.program
      ∷ accounts.coin_creator_vault_ata ∷ accounts.coin_creator_vault_authority ∷ [])
    ++ (if include_volume_accounts
        then accounts.global_volume_accumulator ∷ accounts.user_volume_accumulator ∷ []
        else [])
    ++ (accounts.fee_config ∷ accounts.fee_program ∷ [])
    ++ (if is_cashback_coin
        then accounts.user_volume_accumulator_wsol_ata
          ∷ (if not include_volume_accounts then accounts.user_volume_accumulator ∷ [] else [])
        else [])
    ++ (if with_creator then accounts.pool_v2 ∷ [] else [])
    ++ accounts.buyback_fee_recipient ∷ accounts.buyback_fee_recipient_token_account ∷ []

-- The metas of `buy_exact_quote_in` before the appended ones.
unfoldable pub buy_metas : PumpSwapAccounts → List AccountMeta
buy_metas accounts =
    new_meta accounts.pool false
    ∷ new_meta accounts.user true
    ∷ new_readonly accounts.global_config false
    ∷ new_readonly accounts.base_mint false
    ∷ new_readonly accounts.quote_mint false
    ∷ new_meta accounts.user_base_token_account false
    ∷ new_meta accounts.user_quote_token_account false
    ∷ new_meta accounts.pool_base_token_account false
    ∷ new_meta accounts.pool_quote_token_account false
    ∷ new_readonly accounts.protocol_fee_recipient false
    ∷ new_meta accounts.protocol_fee_recipient_token_account false
    ∷ new_readonly accounts.base_token_program false
    ∷ new_readonly accounts.quote_token_program false
    ∷ new_readonly accounts.system_program false
    ∷ new_readonly accounts.associated_token_program false
    ∷ new_readonly accounts.event_authority false
    ∷ new_readonly accounts.program false
    ∷ new_meta accounts.coin_creator_vault_ata false
    ∷ new_readonly accounts.coin_creator_vault_authority false
    ∷ new_readonly accounts.global_volume_accumulator false
    ∷ new_meta accounts.user_volume_accumulator false
    ∷ new_readonly accounts.fee_config false
    ∷ new_readonly accounts.fee_program false
    ∷ []

-- The metas of `sell` before the appended ones.
unfoldable pub sell_metas : PumpSwapAccounts → List AccountMeta
sell_metas accounts =
    new_meta accounts.pool false
    ∷ new_meta accounts.user true
    ∷ new_readonly accounts.global_config false
    ∷ new_readonly accounts.base_mint false
    ∷ new_readonly accounts.quote_mint false
    ∷ new_meta accounts.user_base_token_account false
    ∷ new_meta accounts.user_quote_token_account false
    ∷ new_meta accounts.pool_base_token_account false
    ∷ new_meta accounts.pool_quote_token_account false
    ∷ new_readonly accounts.protocol_fee_recipient false
    ∷ new_meta accounts.protocol_fee_recipient_token_account false
    ∷ new_readonly accounts.base_token_program false
    ∷ new_readonly accounts.quote_token_program false
    ∷ new_readonly accounts.system_program false
    ∷ new_readonly accounts.associated_token_program false
    ∷ new_readonly accounts.event_authority false
    ∷ new_readonly accounts.program false
    ∷ new_meta accounts.coin_creator_vault_ata false
    ∷ new_readonly accounts.coin_creator_vault_authority false
    ∷ new_readonly accounts.fee_config false
    ∷ new_readonly accounts.fee_program false
    ∷ []

-- The data of the two instructions; that of a purchase ends with `OptionBool(false)`.
unfoldable pub buy_data : ℕ → ℕ → List ℕ
buy_data spendable_quote_in min_base_amount_out =
    pump_buy_exact_quote_in_discriminator
    ++ to_le 8 spendable_quote_in
    ++ to_le 8 min_base_amount_out
    ++ 0 ∷ []

unfoldable pub sell_data : ℕ → ℕ → List ℕ
sell_data base_amount_in min_quote_amount_out =
    pump_sell_discriminator ++ to_le 8 base_amount_in ++ to_le 8 min_quote_amount_out

module _ {Ledger : Type 0} (p : Platform Ledger) where
  unfoldable pub invoke :
      PumpSwapAccounts → List AccountMeta → List ℕ → Bool → Ledger → Result ArbError Ledger
  invoke accounts metas instruction_data include_volume_accounts ledger = do
    pool ← parse_pump_pool accounts.pool.data_bytes
    p.invoke
        (record {
          program_id = pump_swap_program_id;
          accounts = metas;
          instruction_data = instruction_data;
        })
        (invoke_infos accounts pool.is_cashback_coin (has_creator pool) include_volume_accounts)
        ledger

  unfoldable pub buy_exact_quote_in : PumpSwapAccounts → ℕ → ℕ → Ledger → Result ArbError Ledger
  buy_exact_quote_in accounts spendable_quote_in min_base_amount_out ledger = do
    validate p accounts
    metas ← append_current_remaining_accounts accounts (buy_metas accounts) true
    invoke accounts metas (buy_data spendable_quote_in min_base_amount_out) true ledger

  unfoldable pub sell : PumpSwapAccounts → ℕ → ℕ → Ledger → Result ArbError Ledger
  sell accounts base_amount_in min_quote_amount_out ledger = do
    validate p accounts
    ready ← cashback_sell_is_ready accounts
    require ready invalid_cashback_account
    metas ← append_current_remaining_accounts accounts (sell_metas accounts) false
    invoke accounts metas (sell_data base_amount_in min_quote_amount_out) false ledger
