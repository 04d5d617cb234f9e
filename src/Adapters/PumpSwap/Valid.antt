-- ===== src/Adapters/PumpSwap/Valid.antt =====
-- What the checks of pump_swap.rs establish.
use sol_arb_executor.Prelude.{◌≡◌}
use sol_arb_executor.Errors.{ok, >>=-eq-ok, require->>-eq-ok}
use sol_arb_executor.Validate.Constants.{pump_swap_program_id, pump_fee_program_id}
use sol_arb_executor.Validate.Platform.{Platform}
use sol_arb_executor.Validate.Layout.{PumpPoolPrefix, parse_pump_pool, require_keys_eq->>-eq-ok}
use sol_arb_executor.Adapters.PumpSwap.{PumpSwapAccounts, validate}

-- The two programs are the real ones, and the mints and vaults are those that the pool names, which
-- PumpSwap owns.
pub record MatchesPool (a : PumpSwapAccounts) : Type 0 where
  pub pool_prefix : PumpPoolPrefix
  pub program_key : a.program.key ≡ pump_swap_program_id
  pub fee_program_key : a.fee_program.key ≡ pump_fee_program_id
  pub pool_owner : a.pool.owner ≡ pump_swap_program_id
  pub parsed : parse_pump_pool a.pool.data_bytes ≡ ok pool_prefix
  pub base_mint_key : pool_prefix.base_mint ≡ a.base_mint.key
  pub quote_mint_key : pool_prefix.quote_mint ≡ a.quote_mint.key
  pub base_vault_key : pool_prefix.base_vault ≡ a.pool_base_token_account.key
  pub quote_vault_key : pool_prefix.quote_vault ≡ a.pool_quote_token_account.key

pub validate-MatchesPool :
    {Ledger : Type 0} (p : Platform Ledger) (a : PumpSwapAccounts)
    → validate p a ≡ ok tt
    → MatchesPool a
unfolding validate
validate-MatchesPool p a h =
    let (program, h1) = require_keys_eq->>-eq-ok a.program.key pump_swap_program_id _ _ h in
    let (_, h2) = require->>-eq-ok a.program.executable _ _ h1 in
    let (fee_program, h3) = require_keys_eq->>-eq-ok a.fee_program.key pump_fee_program_id _ _ h2 in
    let (_, h4) = require->>-eq-ok a.fee_program.executable _ _ h3 in
    let (owner, h5) = require_keys_eq->>-eq-ok a.pool.owner pump_swap_program_id _ _ h4 in
    let (pool, parsed, h6) = >>=-eq-ok (parse_pump_pool a.pool.data_bytes) _ h5 in
    let (base, h7) = require_keys_eq->>-eq-ok pool.base_mint a.base_mint.key _ _ h6 in
    let (quote, h8) = require_keys_eq->>-eq-ok pool.quote_mint a.quote_mint.key _ _ h7 in
    let (base_vault, h9) =
      require_keys_eq->>-eq-ok pool.base_vault a.pool_base_token_account.key _ _ h8 in
    let (quote_vault, _) =
      require_keys_eq->>-eq-ok pool.quote_vault a.pool_quote_token_account.key _ _ h9 in
    record {
      pool_prefix = pool;
      program_key = program;
      fee_program_key = fee_program;
      pool_owner = owner;
      parsed = parsed;
      base_mint_key = base;
      quote_mint_key = quote;
      base_vault_key = base_vault;
      quote_vault_key = quote_vault;
    }
