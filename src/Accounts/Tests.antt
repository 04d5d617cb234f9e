-- ===== src/Accounts/Tests.antt =====
-- A fee configuration with one tier, and a bin below zero.
use sol_arb_executor.Prelude.{ℕ, ◌<◌, ◌≡◌, refl, arith, List, [], ◌∷◌, ◌++◌, replicate, some, true}
use sol_arb_executor.Prelude.Int.{pos, negsuc, ◌+ℤ◌, ◌*ℤ◌}
use sol_arb_executor.Errors.{ok}
use sol_arb_executor.Accounts.Types.{PumpFees, PumpFeeConfig}
use sol_arb_executor.Accounts.Bytes.{
  bytes, from_le, read_unsigned, read_u32, read_u64, read_u128, to_u16,
}
use sol_arb_executor.Accounts.Pump.{
  fees_at, read_fee, parse_fees, parse_tiers, parse_pump_fee_config, select_pump_fees,
  select_pump_fees_from_data,
}
use sol_arb_executor.Accounts.Pump.Tiers.{select_pump_fees_from_data-eq}
use sol_arb_executor.Accounts.Bins.{bin_array_index, bin_offset}
use sol_arb_executor.Accounts.Bins.Inside.{bin_offset-bin_array_index}

abbrev three_rates : ℕ → List ℕ
three_rates first = first ∷ replicate 7 0 ++ (5 ∷ replicate 7 0) ++ (5 ∷ replicate 7 0)

abbrev config_bytes : List ℕ
config_bytes =
    replicate 41 0
    ++ three_rates 20
    ++ (1 ∷ replicate 3 0)
    ++ (100 ∷ replicate 15 0)
    ++ three_rates 30

abbrev rates : ℕ → PumpFees
rates first = record { lp_fee_bps = first; protocol_fee_bps = 5; creator_fee_bps = 5 }

abbrev config : PumpFeeConfig
config = record {
  flat_fees = rates 20;
  tiers = record { market_cap_threshold = 100; fees = rates 30 } ∷ [];
}

parsed : parse_pump_fee_config config_bytes ≡ ok config
unfolding parse_pump_fee_config parse_tiers parse_fees fees_at read_fee to_u16 read_u32 read_u64
    read_u128 read_unsigned bytes from_le
parsed = refl

select_pump_fees_from_data-eq_example :
    select_pump_fees_from_data config_bytes (rates 0) true 1000 10 50
    ≡ select_pump_fees (some config) (rates 0) true 1000 10 50
select_pump_fees_from_data-eq_example =
    select_pump_fees_from_data-eq config_bytes (rates 0) true 1000 10 50 parsed

bin_offset-bin_array_index_example :
    (k : ℕ) × (bin_offset (negsuc 0) (bin_array_index (negsuc 0)) ≡ ok k)
    × (k < 70)
    × (bin_array_index (negsuc 0) *ℤ pos 70 +ℤ pos k ≡ negsuc 0)
bin_offset-bin_array_index_example = bin_offset-bin_array_index (negsuc 0) (omega arith)
