-- ===== src/Handlers/Context.antt =====
-- programs/sol-arb-executor/src/instructions/mod.rs: the accounts of an instruction, and the views of
-- them that the adapters take.
use sol_arb_executor.Prelude.{ℕ, List, Bool, false, ◌&&◌, ◌||◌, if◌then◌else◌}
use sol_arb_executor.Errors.{
  ArbError, invalid_route_accounts, Result, ok, err, ◌>>=◌, ◌>>◌, require,
}
use sol_arb_executor.Accounts.Types.{AccountInfo}
use sol_arb_executor.Validate.Constants.{wsol_mint_key}
use sol_arb_executor.Validate.Platform.{Platform}
use sol_arb_executor.Validate.Layout.{
  same_bytes, MeteoraPairPrefix, parse_meteora_pair, validate_user_token_fields,
}
use sol_arb_executor.Validate.Tokens.{validate_route_token_programs, validate_supported_target_mint}
use sol_arb_executor.Adapters.PumpSwap.{PumpSwapAccounts}
use sol_arb_executor.Adapters.MeteoraDlmm.{MeteoraAccounts}

-- `InterfaceAccount<TokenAccount>` and `InterfaceAccount<Mint>`: the account, and the fields that the
-- program reads of what was decoded when it was loaded.
pub record TokenAccount : Type 0 where
  pub info : AccountInfo
  pub token_owner : List ℕ
  pub mint : List ℕ
  pub amount : ℕ

pub record MintAccount : Type 0 where
  pub info : AccountInfo
  pub supply : ℕ

pub record ExecuteRoute : Type 0 where
  pub trader : AccountInfo
  pub wsol_mint : MintAccount
  pub target_mint : MintAccount
  pub user_wsol : TokenAccount
  pub user_target : TokenAccount
  pub wsol_token_program : AccountInfo
  pub target_token_program : AccountInfo
  pub system_program : AccountInfo
  pub associated_token_program : AccountInfo
  pub pump_program : AccountInfo
  pub pump_pool : AccountInfo
  pub pump_global_config : AccountInfo
  pub pump_pool_base_token_account : AccountInfo
  pub pump_pool_quote_token_account : AccountInfo
  pub pump_protocol_fee_recipient : AccountInfo
  pub pump_protocol_fee_recipient_token_account : AccountInfo
  pub pump_event_authority : AccountInfo
  pub pump_coin_creator_vault_ata : AccountInfo
  pub pump_coin_creator_vault_authority : AccountInfo
  pub pump_global_volume_accumulator : AccountInfo
  pub pump_user_volume_accumulator : AccountInfo
  pub pump_user_volume_accumulator_wsol_ata : AccountInfo
  pub pump_fee_config : AccountInfo
  pub pump_fee_program : AccountInfo
  pub pump_pool_v2 : AccountInfo
  pub pump_buyback_fee_recipient : AccountInfo
  pub pump_buyback_fee_recipient_token_account : AccountInfo
  pub meteora_program : AccountInfo
  pub meteora_lb_pair : AccountInfo
  pub meteora_bin_array_bitmap_extension : AccountInfo
  pub meteora_reserve_x : AccountInfo
  pub meteora_reserve_y : AccountInfo
  pub meteora_oracle : AccountInfo
  pub meteora_host_fee_in : AccountInfo
  pub memo_program : AccountInfo
  pub meteora_event_authority : AccountInfo

-- The accounts as they stand on a later ledger; what was decoded stays.
unfoldable pub with_infos : (AccountInfo → AccountInfo) → ExecuteRoute → ExecuteRoute
with_infos f accounts = record {
  trader = f accounts.trader;
  wsol_mint = record accounts.wsol_mint { info = f accounts.wsol_mint.info };
  target_mint = record accounts.target_mint { info = f accounts.target_mint.info };
  user_wsol = record accounts.user_wsol { info = f accounts.user_wsol.info };
  user_target = record accounts.user_target { info = f accounts.user_target.info };
  wsol_token_program = f accounts.wsol_token_program;
  target_token_program = f accounts.target_token_program;
  system_program = f accounts.system_program;
  associated_token_program = f accounts.associated_token_program;
  pump_program = f accounts.pump_program;
  pump_pool = f accounts.pump_pool;
  pump_global_config = f accounts.pump_global_config;
  pump_pool_base_token_account = f accounts.pump_pool_base_token_account;
  pump_pool_quote_token_account = f accounts.pump_pool_quote_token_account;
  pump_protocol_fee_recipient = f accounts.pump_protocol_fee_recipient;
  pump_protocol_fee_recipient_token_account = f accounts.pump_protocol_fee_recipient_token_account;
  pump_event_authority = f accounts.pump_event_authority;
  pump_coin_creator_vault_ata = f accounts.pump_coin_creator_vault_ata;
  pump_coin_creator_vault_authority = f accounts.pump_coin_creator_vault_authority;
  pump_global_volume_accumulator = f accounts.pump_global_volume_accumulator;
  pump_user_volume_accumulator = f accounts.pump_user_volume_accumulator;
  pump_user_volume_accumulator_wsol_ata = f accounts.pump_user_volume_accumulator_wsol_ata;
  pump_fee_config = f accounts.pump_fee_config;
  pump_fee_program = f accounts.pump_fee_program;
  pump_pool_v2 = f accounts.pump_pool_v2;
  pump_buyback_fee_recipient = f accounts.pump_buyback_fee_recipient;
  pump_buyback_fee_recipient_token_account = f accounts.pump_buyback_fee_recipient_token_account;
  meteora_program = f accounts.meteora_program;
  meteora_lb_pair = f accounts.meteora_lb_pair;
  meteora_bin_array_bitmap_extension = f accounts.meteora_bin_array_bitmap_extension;
  meteora_reserve_x = f accounts.meteora_reserve_x;
  meteora_reserve_y = f accounts.meteora_reserve_y;
  meteora_oracle = f accounts.meteora_oracle;
  meteora_host_fee_in = f accounts.meteora_host_fee_in;
  memo_program = f accounts.memo_program;
  meteora_event_authority = f accounts.meteora_event_authority;
}

unfoldable pub pump_accounts : ExecuteRoute → PumpSwapAccounts
pump_accounts accounts = record {
  pool = accounts.pump_pool;
  user = accounts.trader;
  global_config = accounts.pump_global_config;
  base_mint = accounts.target_mint.info;
  quote_mint = accounts.wsol_mint.info;
  user_base_token_account = accounts.user_target.info;
  user_quote_token_account = accounts.user_wsol.info;
  pool_base_token_account = accounts.pump_pool_base_token_account;
  pool_quote_token_account = accounts.pump_pool_quote_token_account;
  protocol_fee_recipient = accounts.pump_protocol_fee_recipient;
  protocol_fee_recipient_token_account = accounts.pump_protocol_fee_recipient_token_account;
  base_token_program = accounts.target_token_program;
  quote_token_program = accounts.wsol_token_program;
  system_program = accounts.system_program;
  associated_token_program = accounts.associated_token_program;
  event_authority = accounts.pump_event_authority;
  program = accounts.pump_program;
  coin_creator_vault_ata = accounts.pump_coin_creator_vault_ata;
  coin_creator_vault_authority = accounts.pump_coin_creator_vault_authority;
  global_volume_accumulator = accounts.pump_global_volume_accumulator;
  user_volume_accumulator = accounts.pump_user_volume_accumulator;
  user_volume_accumulator_wsol_ata = accounts.pump_user_volume_accumulator_wsol_ata;
  fee_config = accounts.pump_fee_config;
  fee_program = accounts.pump_fee_program;
  pool_v2 = accounts.pump_pool_v2;
  buyback_fee_recipient = accounts.pump_buyback_fee_recipient;
  buyback_fee_recipient_token_account = accounts.pump_buyback_fee_recipient_token_account;
}

-- The test of `target_is_x` on the parsed pair, false when it does not parse.
unfoldable pub target_is_x : Result ArbError MeteoraPairPrefix → List ℕ → Bool
target_is_x (ok pair) target_mint = same_bytes pair.token_x_mint target_mint
target_is_x (err _) target_mint = false

unfoldable pub meteora_accounts : ExecuteRoute → AccountInfo → AccountInfo → MeteoraAccounts
meteora_accounts accounts input output =
    let is_x =
      target_is_x (parse_meteora_pair accounts.meteora_lb_pair.data_bytes)
        accounts.target_mint.info.key in
    record {
      lb_pair = accounts.meteora_lb_pair;
      bin_array_bitmap_extension = accounts.meteora_bin_array_bitmap_extension;
      reserve_x = accounts.meteora_reserve_x;
      reserve_y = accounts.meteora_reserve_y;
      user_token_in = input;
      user_token_out = output;
      token_x_mint = if is_x then accounts.target_mint.info else accounts.wsol_mint.info;
      token_y_mint = if is_x then accounts.wsol_mint.info else accounts.target_mint.info;
      oracle = accounts.meteora_oracle;
      host_fee_in = accounts.meteora_host_fee_in;
      user = accounts.trader;
      token_x_program = if is_x then accounts.target_token_program else accounts.wsol_token_program;
      token_y_program = if is_x then accounts.wsol_token_program else accounts.target_token_program;
      memo_program = accounts.memo_program;
      event_authority = accounts.meteora_event_authority;
      program = accounts.meteora_program;
    }

-- `valid_pair`.
unfoldable pub is_valid_pair : MeteoraPairPrefix → List ℕ → Bool
is_valid_pair pair target_mint =
    same_bytes pair.token_x_mint target_mint && same_bytes pair.token_y_mint wsol_mint_key
    || same_bytes pair.token_y_mint target_mint && same_bytes pair.token_x_mint wsol_mint_key

unfoldable pub validate_route_mints :
    {Ledger : Type 0} → Platform Ledger → ExecuteRoute → Result ArbError (Unit {0})
validate_route_mints p accounts = do
  validate_route_token_programs p accounts.wsol_mint.info accounts.target_mint.info
      accounts.user_wsol.info accounts.user_target.info accounts.wsol_token_program.key
      accounts.target_token_program.key
  validate_supported_target_mint p accounts.target_mint.info
  validate_user_token_fields accounts.user_wsol.token_owner accounts.user_wsol.mint
      accounts.trader.key wsol_mint_key
  validate_user_token_fields accounts.user_target.token_owner accounts.user_target.mint
      accounts.trader.key accounts.target_mint.info.key
  pair ← parse_meteora_pair accounts.meteora_lb_pair.data_bytes
  require (is_valid_pair pair accounts.target_mint.info.key) invalid_route_accounts
