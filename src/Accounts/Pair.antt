-- ===== src/Accounts/Pair.antt =====
-- programs/sol-arb-executor/src/quote/accounts.rs: the state of a Meteora pair.
use sol_arb_executor.Prelude.{ℕ, zero, suc, ◌+◌, List, [], ◌∷◌, Bool, true, ◌&&◌, ◌==◌}
use sol_arb_executor.Errors.{QuoteError, Result, ok, ◌>>=◌}
use sol_arb_executor.Accounts.Types.{DlmmStaticParameters, DlmmVariableParameters, LbPairState}
use sol_arb_executor.Accounts.Bytes.{
  discriminator_len, bytes, read_u16, read_u32, read_u64, read_i32, read_i64, read_byte,
}

abbrev base : ℕ
base = discriminator_len

unfoldable pub parse_static_parameters : List ℕ → Result QuoteError DlmmStaticParameters
parse_static_parameters data_bytes = do
  base_factor ← read_u16 data_bytes base
  filter_period ← read_u16 data_bytes (base + 2)
  decay_period ← read_u16 data_bytes (base + 4)
  reduction_factor ← read_u16 data_bytes (base + 6)
  variable_fee_control ← read_u32 data_bytes (base + 8)
  max_volatility_accumulator ← read_u32 data_bytes (base + 12)
  protocol_share ← read_u16 data_bytes (base + 24)
  base_fee_power_factor ← read_byte data_bytes (base + 26)
  function_type ← read_byte data_bytes (base + 27)
  collect_fee_mode ← read_byte data_bytes (base + 28)
  ok (record {
    base_factor = base_factor;
    filter_period = filter_period;
    decay_period = decay_period;
    reduction_factor = reduction_factor;
    variable_fee_control = variable_fee_control;
    max_volatility_accumulator = max_volatility_accumulator;
    protocol_share = protocol_share;
    base_fee_power_factor = base_fee_power_factor;
    function_type = function_type;
    collect_fee_mode = collect_fee_mode;
  })

unfoldable pub parse_variable_parameters : List ℕ → Result QuoteError DlmmVariableParameters
parse_variable_parameters data_bytes = do
  volatility_accumulator ← read_u32 data_bytes (base + 32)
  volatility_reference ← read_u32 data_bytes (base + 32 + 4)
  index_reference ← read_i32 data_bytes (base + 32 + 8)
  last_update_timestamp ← read_i64 data_bytes (base + 32 + 16)
  ok (record {
    volatility_accumulator = volatility_accumulator;
    volatility_reference = volatility_reference;
    index_reference = index_reference;
    last_update_timestamp = last_update_timestamp;
  })

-- The loop that fills the words of the bitmap.
unfoldable pub parse_words : ℕ → List ℕ → ℕ → Result QuoteError (List ℕ)
parse_words zero data_bytes offset = ok []
parse_words (suc n) data_bytes offset = do
  word ← read_u64 data_bytes offset
  words ← parse_words n data_bytes (offset + 8)
  ok (word ∷ words)

-- `== [0; n]`.
unfoldable pub all_zero : List ℕ → Bool
all_zero [] = true
all_zero (b ∷ bs) = b == 0 && all_zero bs

unfoldable pub parse_lb_pair : List ℕ → Result QuoteError LbPairState
parse_lb_pair data_bytes = do
  static_parameters ← parse_static_parameters data_bytes
  variable_parameters ← parse_variable_parameters data_bytes
  bitmap ← parse_words 16 data_bytes (base + 576)
  first_reward_mint ← bytes 32 data_bytes (base + 256)
  second_reward_mint ← bytes 32 data_bytes (base + 400)
  active_id ← read_i32 data_bytes (base + 68)
  bin_step ← read_u16 data_bytes (base + 72)
  ok (record {
    static_parameters = static_parameters;
    variable_parameters = variable_parameters;
    active_id = active_id;
    bin_step = bin_step;
    bitmap = bitmap;
    rewards_are_empty = all_zero first_reward_mint && all_zero second_reward_mint;
  })
