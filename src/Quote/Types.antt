-- ===== src/Quote/Types.antt =====
-- programs/sol-arb-executor/src/quote/math.rs: the constants and records of the quote arithmetic.
use sol_arb_executor.Prelude.{ℕ, ◌^◌, Bool}

abbrev pub fee_precision : ℕ
fee_precision = 1_000_000_000

abbrev pub max_fee_rate : ℕ
max_fee_rate = 100_000_000

-- `1_u128 << Q64`.
abbrev pub q64 : ℕ
q64 = 2 ^ 64

pub record QuoteResult : Type 0 where
  pub amount_in : ℕ
  pub amount_out : ℕ
  pub fee : ℕ

pub record DlmmFeeParameters : Type 0 where
  pub bin_step : ℕ
  pub base_factor : ℕ
  pub base_fee_power_factor : ℕ
  pub variable_fee_control : ℕ
  pub volatility_accumulator : ℕ

pub record Bin : Type 0 where
  pub price_q64 : ℕ
  pub amount_x : ℕ
  pub amount_y : ℕ
  pub open_order_amount : ℕ
  pub processed_order_remaining_amount : ℕ
  pub limit_order_ask_side : Bool
