-- ===== src/Accounts/Types.antt =====
-- programs/sol-arb-executor/src/quote/accounts.rs: the records that the parsers fill.
-- A public key or a 32-byte field is the list of its bytes.
use sol_arb_executor.Prelude.{ℕ, Bool, List}
use sol_arb_executor.Prelude.Int.{ℤ}

abbrev pub max_quote_bin_arrays_per_direction : ℕ
max_quote_bin_arrays_per_direction = 2

abbrev pub max_quote_visited_bins_per_direction : ℕ
max_quote_visited_bins_per_direction = 16

pub record PumpPoolState : Type 0 where
  pub creator : List ℕ
  pub base_mint : List ℕ
  pub coin_creator : List ℕ
  pub virtual_quote_reserves : ℕ

pub record PumpFees : Type 0 where
  pub lp_fee_bps : ℕ
  pub protocol_fee_bps : ℕ
  pub creator_fee_bps : ℕ

pub record PumpFeeTier : Type 0 where
  pub market_cap_threshold : ℕ
  pub fees : PumpFees

pub record PumpFeeConfig : Type 0 where
  pub flat_fees : PumpFees
  pub tiers : List PumpFeeTier

pub record DlmmStaticParameters : Type 0 where
  pub base_factor : ℕ
  pub filter_period : ℕ
  pub decay_period : ℕ
  pub reduction_factor : ℕ
  pub variable_fee_control : ℕ
  pub max_volatility_accumulator : ℕ
  pub protocol_share : ℕ
  pub base_fee_power_factor : ℕ
  pub function_type : ℕ
  pub collect_fee_mode : ℕ

pub record DlmmVariableParameters : Type 0 where
  pub volatility_accumulator : ℕ
  pub volatility_reference : ℕ
  pub index_reference : ℤ
  pub last_update_timestamp : ℤ

pub record LbPairState : Type 0 where
  pub static_parameters : DlmmStaticParameters
  pub variable_parameters : DlmmVariableParameters
  pub active_id : ℤ
  pub bin_step : ℕ
  pub bitmap : List ℕ
  pub rewards_are_empty : Bool

-- The fields of Solana's `AccountInfo` that the program reads. No account is borrowed mutably while
-- the program reads it, so `try_borrow_data` gives the data.
pub record AccountInfo : Type 0 where
  pub key : List ℕ
  pub owner : List ℕ
  pub is_signer : Bool
  pub is_writable : Bool
  pub executable : Bool
  pub data_bytes : List ℕ
