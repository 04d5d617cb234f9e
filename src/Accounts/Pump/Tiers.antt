-- ===== src/Accounts/Pump/Tiers.antt =====
-- The two selections of the Pump fees in quote/accounts.rs, from the parsed configuration and from
-- the bytes of the account.
use sol_arb_executor.Prelude.{
  ℕ, zero, suc, ◌+◌, ◌≡◌, refl, sym, ◌∙◌, ap, arith, List, ◌∷◌, Bool, true, false, Bool-cases, inl,
  inr, some, leb, ◌==◌, ◌||◌,
}
use sol_arb_executor.Errors.{ok, >>=-eq-ok, ok-injective, Result-cases}
use sol_arb_executor.Accounts.Types.{PumpFees, PumpFeeTier, PumpFeeConfig}
use sol_arb_executor.Accounts.Bytes.{read_u32, read_u128}
use sol_arb_executor.Accounts.Pump.{
  parse_fees, parse_tiers, parse_pump_fee_config, select_tier, select_tier_data, select_from_tiers,
  market_cap_for, select_pump_fees, select_pump_fees_from_data, flat_offset, tiers_offset,
  too_many_tiers,
}

select_tier_data-step :
    (rounds market_cap : ℕ) (data_bytes : List ℕ) (offset : ℕ) (selected : PumpFees)
    (tier : PumpFeeTier) (rest : List PumpFeeTier)
    → read_u128 data_bytes offset ≡ ok tier.market_cap_threshold
    → parse_fees data_bytes (offset + 16) ≡ ok tier.fees
    → ((fees : PumpFees)
        → select_tier_data rounds market_cap data_bytes (offset + 40) fees
          ≡ ok (select_tier market_cap rest fees))
    → select_tier_data (suc rounds) market_cap data_bytes offset selected
      ≡ ok (select_tier market_cap (tier ∷ rest) selected)
unfolding select_tier_data select_tier
select_tier_data-step rounds market_cap data_bytes offset selected tier rest read parsed later =
    elim (Bool-cases (leb tier.market_cap_threshold market_cap)) [
      | inl reached ↦ rw (select_tier_data, read, reached, parsed) (later tier.fees)
      | inr below ↦ rw (select_tier_data, read, below) (later selected)
    ]

-- Where the tiers parse, the loop over the bytes selects what the loop over the tiers does.
select_tier_data-eq :
    (rounds market_cap : ℕ) (data_bytes : List ℕ) (offset : ℕ) (selected : PumpFees)
    {tiers : List PumpFeeTier}
    → parse_tiers rounds data_bytes offset ≡ ok tiers
    → select_tier_data rounds market_cap data_bytes offset selected
      ≡ ok (select_tier market_cap tiers selected)
unfolding parse_tiers select_tier_data select_tier
select_tier_data-eq zero market_cap data_bytes offset selected h =
    ap (λ ts. ok (select_tier market_cap ts selected)) (ok-injective h)
select_tier_data-eq (suc rounds) market_cap data_bytes offset selected h =
    let (threshold, read, h1) = >>=-eq-ok (read_u128 data_bytes offset) _ h in
    let (fees, parsed, h2) = >>=-eq-ok (parse_fees data_bytes (offset + 16)) _ h1 in
    let (rest, others, h3) = >>=-eq-ok (parse_tiers rounds data_bytes (offset + 40)) _ h2 in
    select_tier_data-step rounds market_cap data_bytes offset selected _ rest read parsed
      (λ fallback. select_tier_data-eq rounds market_cap data_bytes (offset + 40) fallback others)
    ∙ ap (λ ts. ok (select_tier market_cap ts selected)) (ok-injective h3)

-- A configuration whose number of tiers is not zero has a first tier, with the fees after its
-- threshold.
first_tier :
    (count : ℕ) (data_bytes : List ℕ) (offset : ℕ) {tiers : List PumpFeeTier}
    → (count == 0) ≡ false
    → parse_tiers count data_bytes offset ≡ ok tiers
    → (tier : PumpFeeTier) × (rest : List PumpFeeTier) × (tiers ≡ tier ∷ rest)
      × (parse_fees data_bytes (offset + 16) ≡ ok tier.fees)
unfolding parse_tiers
first_tier zero data_bytes offset some_tier h = cc
first_tier (suc count) data_bytes offset some_tier h =
    let (threshold, read, h1) = >>=-eq-ok (read_u128 data_bytes offset) _ h in
    let (fees, parsed, h2) = >>=-eq-ok (parse_fees data_bytes (offset + 16)) _ h1 in
    let (rest, others, h3) = >>=-eq-ok (parse_tiers count data_bytes (offset + 40)) _ h2 in
    (_, rest, sym (ok-injective h3), parsed)

-- Both selections, for a configuration given by its parts.
selections-eq :
    (data_bytes : List ℕ) (global : PumpFees) (is_pump_pool : Bool) (supply base quote count : ℕ)
    (flat : PumpFees) (tier : PumpFeeTier) (rest : List PumpFeeTier)
    → read_u32 data_bytes (flat_offset + 24) ≡ ok count
    → ((count == 0) || too_many_tiers data_bytes count) ≡ false
    → parse_tiers count data_bytes tiers_offset ≡ ok (tier ∷ rest)
    → parse_fees data_bytes flat_offset ≡ ok flat
    → parse_fees data_bytes (tiers_offset + 16) ≡ ok tier.fees
    → select_pump_fees_from_data data_bytes global is_pump_pool supply base quote
      ≡ select_pump_fees
          (some (record { flat_fees = flat; tiers = tier ∷ rest }))
          global
          is_pump_pool
          supply
          base
          quote
unfolding select_pump_fees select_pump_fees_from_data select_from_tiers
selections-eq data_bytes global false supply base quote count flat tier rest counted fine listed
      flat_parsed first =
    rw (flat_parsed) refl
selections-eq data_bytes global true supply base quote count flat tier rest counted fine listed
      flat_parsed first =
    elim (Bool-cases (base == 0)) [
      | inl empty ↦ rw (flat_parsed, empty) refl
      | inr full ↦ elim (Result-cases (market_cap_for supply base quote)) [
        | inl (market_cap, priced) ↦
            rw (flat_parsed, full, counted, fine, priced, first)
              (select_tier_data-eq count market_cap data_bytes tiers_offset tier.fees listed)
        | inr (e, failed) ↦ rw (flat_parsed, full, counted, fine, failed) refl
      ]
    ]

-- Whenever the whole configuration parses, the fees selected from the bytes of the account are those
-- selected from the parsed configuration, errors included.
pub select_pump_fees_from_data-eq :
    (data_bytes : List ℕ) (global : PumpFees) (is_pump_pool : Bool) (supply base quote : ℕ)
    {config : PumpFeeConfig}
    → parse_pump_fee_config data_bytes ≡ ok config
    → select_pump_fees_from_data data_bytes global is_pump_pool supply base quote
      ≡ select_pump_fees (some config) global is_pump_pool supply base quote
unfolding parse_pump_fee_config
select_pump_fees_from_data-eq data_bytes global is_pump_pool supply base quote h =
    let (count, counted, h1) = >>=-eq-ok (read_u32 data_bytes (flat_offset + 24)) _ h in
    elim (Bool-cases ((count == 0) || too_many_tiers data_bytes count)) [
      | inl refused ↦ cc (rw refused at h1)
      | inr fine ↦
          let (tiers, listed, h2) =
            >>=-eq-ok (parse_tiers count data_bytes tiers_offset) _ (rw fine at h1) in
          let (flat, flat_parsed, h3) = >>=-eq-ok (parse_fees data_bytes flat_offset) _ h2 in
          let (tier, rest, split, first) =
            first_tier count data_bytes tiers_offset (ground arith) listed in
          selections-eq data_bytes global is_pump_pool supply base quote count flat tier rest
            counted fine (listed ∙ ap ok split) flat_parsed first
          ∙ ap (λ c. select_pump_fees (some c) global is_pump_pool supply base quote)
              (ap (λ ts. record { flat_fees = flat; tiers = ts }) (sym split) ∙ ok-injective h3)
    ]
