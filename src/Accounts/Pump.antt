-- ===== src/Accounts/Pump.antt =====
-- programs/sol-arb-executor/src/quote/accounts.rs: the Pump pool, its fee tables, and the choice of
-- the fee rates by market capitalisation.
pub mod Tiers
use sol_arb_executor.Prelude.{
  ℕ, zero, suc, ◌+◌, ◌-◌, ◌/◌, List, [], ◌∷◌, Bool, not, ◌||◌, Option, none, some, length, leb, ltb,
  ◌==◌, if◌then◌else◌,
}
use sol_arb_executor.Prelude.Int.{ℤ, pos, negsuc}
use sol_arb_executor.Errors.{
  QuoteError, invalid_input, math_overflow, Result, ok, err, ◌>>=◌, ok_or,
}
use sol_arb_executor.Word.{u64_size, fits, checked_mul_u128}
use sol_arb_executor.Accounts.Types.{PumpPoolState, PumpFees, PumpFeeTier, PumpFeeConfig}
use sol_arb_executor.Accounts.Bytes.{
  discriminator_len, bytes, from_le, signed, read_u32, read_u64, read_u128, to_u16,
}

-- `try_into::<u64>` of an i128.
unfoldable pub i128_to_u64 : ℤ → Result QuoteError ℕ
i128_to_u64 (pos value) = ok_or (fits u64_size value) invalid_input
i128_to_u64 (negsuc _) = err invalid_input

unfoldable pub read_fee : List ℕ → ℕ → Result QuoteError ℕ
read_fee data_bytes offset = do value ← read_u64 data_bytes offset; to_u16 value

-- Three rates at three offsets.
unfoldable pub fees_at : List ℕ → ℕ → ℕ → ℕ → Result QuoteError PumpFees
fees_at data_bytes lp_offset protocol_offset creator_offset = do
  lp_fee_bps ← read_fee data_bytes lp_offset
  protocol_fee_bps ← read_fee data_bytes protocol_offset
  creator_fee_bps ← read_fee data_bytes creator_offset
  ok (record {
    lp_fee_bps = lp_fee_bps;
    protocol_fee_bps = protocol_fee_bps;
    creator_fee_bps = creator_fee_bps;
  })

unfoldable pub parse_fees : List ℕ → ℕ → Result QuoteError PumpFees
parse_fees data_bytes offset = fees_at data_bytes offset (offset + 8) (offset + 16)

unfoldable pub parse_pump_pool : List ℕ → Result QuoteError PumpPoolState
parse_pump_pool data_bytes = do
  raw ← bytes 16 data_bytes 245
  creator ← bytes 32 data_bytes 11
  base_mint ← bytes 32 data_bytes 43
  coin_creator ← bytes 32 data_bytes 211
  virtual_quote_reserves ← i128_to_u64 (signed 128 (from_le raw))
  ok (record {
    creator = creator;
    base_mint = base_mint;
    coin_creator = coin_creator;
    virtual_quote_reserves = virtual_quote_reserves;
  })

unfoldable pub parse_pump_global_fees : List ℕ → Result QuoteError PumpFees
parse_pump_global_fees data_bytes = fees_at data_bytes 40 48 313

abbrev pub flat_offset : ℕ
flat_offset = discriminator_len + 1 + 32

abbrev pub tiers_offset : ℕ
tiers_offset = flat_offset + 28

-- The guard on the number of tiers, without the test for zero.
abbrev pub too_many_tiers : List ℕ → ℕ → Bool
too_many_tiers data_bytes tier_count =
    ltb ((length data_bytes - tiers_offset) / 40) tier_count || ltb 64 tier_count

-- The loop that pushes the tiers: `rounds` of them from `offset` on.
unfoldable pub parse_tiers : ℕ → List ℕ → ℕ → Result QuoteError (List PumpFeeTier)
parse_tiers zero data_bytes offset = ok []
parse_tiers (suc rounds) data_bytes offset = do
  threshold ← read_u128 data_bytes offset
  fees ← parse_fees data_bytes (offset + 16)
  tiers ← parse_tiers rounds data_bytes (offset + 40)
  ok (record { market_cap_threshold = threshold; fees = fees } ∷ tiers)

unfoldable pub parse_pump_fee_config : List ℕ → Result QuoteError PumpFeeConfig
parse_pump_fee_config data_bytes = do
  tier_count ← read_u32 data_bytes (flat_offset + 24)
  if tier_count == 0 || too_many_tiers data_bytes tier_count then err invalid_input else (do
    tiers ← parse_tiers tier_count data_bytes tiers_offset
    flat_fees ← parse_fees data_bytes flat_offset
    ok (record { flat_fees = flat_fees; tiers = tiers }))

-- The loop over the tiers: the last one whose threshold is reached.
unfoldable pub select_tier : ℕ → List PumpFeeTier → PumpFees → PumpFees
select_tier market_cap [] selected = selected
select_tier market_cap (tier ∷ tiers) selected =
    select_tier market_cap tiers
      (if leb tier.market_cap_threshold market_cap then tier.fees else selected)

unfoldable pub market_cap_for : ℕ → ℕ → ℕ → Result QuoteError ℕ
market_cap_for mint_supply base_reserve effective_quote_reserve = do
  product ← ok_or (checked_mul_u128 effective_quote_reserve mint_supply) math_overflow
  ok (product / base_reserve)

-- The tiers' part of `select_pump_fees`.
unfoldable pub select_from_tiers : List PumpFeeTier → ℕ → ℕ → ℕ → Result QuoteError PumpFees
select_from_tiers [] mint_supply base_reserve effective_quote_reserve = err invalid_input
select_from_tiers (tier ∷ tiers) mint_supply base_reserve effective_quote_reserve =
    if base_reserve == 0 then err invalid_input else (do
      market_cap ← market_cap_for mint_supply base_reserve effective_quote_reserve
      ok (select_tier market_cap (tier ∷ tiers) tier.fees))

unfoldable pub select_pump_fees :
    Option PumpFeeConfig → PumpFees → Bool → ℕ → ℕ → ℕ → Result QuoteError PumpFees
select_pump_fees none global is_pump_pool mint_supply base_reserve effective_quote_reserve =
    ok global
select_pump_fees (some config) global is_pump_pool mint_supply base_reserve
      effective_quote_reserve =
    if not is_pump_pool
    then ok config.flat_fees
    else select_from_tiers config.tiers mint_supply base_reserve effective_quote_reserve

-- The loop over the tiers in the account's bytes, which parses a tier only where it is selected.
unfoldable pub select_tier_data : ℕ → ℕ → List ℕ → ℕ → PumpFees → Result QuoteError PumpFees
select_tier_data zero market_cap data_bytes offset selected = ok selected
select_tier_data (suc rounds) market_cap data_bytes offset selected = do
  threshold ← read_u128 data_bytes offset
  fees ← if leb threshold market_cap then parse_fees data_bytes (offset + 16) else ok selected
  select_tier_data rounds market_cap data_bytes (offset + 40) fees

unfoldable pub select_pump_fees_from_data :
    List ℕ → PumpFees → Bool → ℕ → ℕ → ℕ → Result QuoteError PumpFees
select_pump_fees_from_data data_bytes global is_pump_pool mint_supply base_reserve
      effective_quote_reserve =
    do
      flat_fees ← parse_fees data_bytes flat_offset
      if not is_pump_pool
          then ok flat_fees
          else (if base_reserve == 0 then err invalid_input else (do
            tier_count ← read_u32 data_bytes (flat_offset + 24)
            if tier_count == 0 || too_many_tiers data_bytes tier_count
                then (if tier_count == 0 then ok global else err invalid_input)
                else (do
                  market_cap ← market_cap_for mint_supply base_reserve effective_quote_reserve
                  selected ← parse_fees data_bytes (tiers_offset + 16)
                  select_tier_data tier_count market_cap data_bytes tiers_offset selected)))

unfoldable pub token_amount : List ℕ → Result QuoteError ℕ
token_amount data_bytes = read_u64 data_bytes 64

unfoldable pub mint_supply : List ℕ → Result QuoteError ℕ
mint_supply data_bytes = read_u64 data_bytes 36
