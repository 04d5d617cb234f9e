-- ===== src/Adapters/PumpSwap/Trade.antt =====
-- What the two instructions of pump_swap.rs send.
use mathlib.Core.Path.{subst}
use sol_arb_executor.Prelude.{
  ℕ, ◌<◌, ◌≡◌, refl, ap, sym, ◌∙◌, List, [], ◌∷◌, ◌++◌, map, Bool, true, false,
}
use sol_arb_executor.Errors.{ok, >>=-eq-ok, >>-eq-ok, require->>-eq-ok, ok-injective}
use sol_arb_executor.Word.{u64_size}
use sol_arb_executor.Accounts.Types.{AccountInfo}
use sol_arb_executor.Adapters.PumpSwap.Valid.{MatchesPool, validate-MatchesPool}
use sol_arb_executor.Accounts.Bytes.{bytes, read_u64, read_unsigned, from_le}
use sol_arb_executor.Validate.Constants.{
  pump_swap_program_id, pump_sell_discriminator, pump_buy_exact_quote_in_discriminator,
}
use sol_arb_executor.Validate.Platform.{AccountMeta, Platform}
use sol_arb_executor.Validate.Layout.{PumpPoolPrefix, parse_pump_pool}
use sol_arb_executor.Adapters.Encode.{to_le, from_le-to_le}
use sol_arb_executor.Adapters.Sent.{signers, Sent}
use sol_arb_executor.Adapters.PumpSwap.{
  PumpSwapAccounts, has_creator, validate, cashback_sell_is_ready,
}
use sol_arb_executor.Adapters.PumpSwap.Invoke.{
  remaining_metas, append_current_remaining_accounts, invoke_infos, buy_metas, sell_metas, buy_data,
  sell_data, invoke, buy_exact_quote_in, sell,
}

module _ (a m : ℕ) where
  buy_data-tag : bytes 8 (buy_data a m) 0 ≡ ok pump_buy_exact_quote_in_discriminator
  unfolding buy_data to_le bytes
  buy_data-tag = refl

  buy_data-amount : a < u64_size → read_u64 (buy_data a m) 8 ≡ ok a
  unfolding buy_data to_le bytes read_u64 read_unsigned from_le
  buy_data-amount h = ap ok (from_le-to_le 8 a h)

  buy_data-min : m < u64_size → read_u64 (buy_data a m) 16 ≡ ok m
  unfolding buy_data to_le bytes read_u64 read_unsigned from_le
  buy_data-min h = ap ok (from_le-to_le 8 m h)

  sell_data-tag : bytes 8 (sell_data a m) 0 ≡ ok pump_sell_discriminator
  unfolding sell_data to_le bytes
  sell_data-tag = refl

  sell_data-amount : a < u64_size → read_u64 (sell_data a m) 8 ≡ ok a
  unfolding sell_data to_le bytes read_u64 read_unsigned from_le
  sell_data-amount h = ap ok (from_le-to_le 8 a h)

  sell_data-min : m < u64_size → read_u64 (sell_data a m) 16 ≡ ok m
  unfolding sell_data to_le bytes read_u64 read_unsigned from_le
  sell_data-min h = ap ok (from_le-to_le 8 m h)

-- The metas name the accounts that are passed, one by one, and only the user signs.
abbrev Covers : PumpSwapAccounts → List AccountMeta → List AccountInfo → Type 0
Covers accounts metas infos =
    (map (λ m. m.pubkey) metas ≡ map (λ a. a.key) infos) × (signers metas ≡ accounts.user.key ∷ [])

module _ (accounts : PumpSwapAccounts) where
  buy_metas-Covers :
      (c d : Bool)
      → Covers accounts
          (buy_metas accounts ++ remaining_metas accounts c d true)
          (invoke_infos accounts c d true)
  unfolding remaining_metas buy_metas invoke_infos signers
  buy_metas-Covers true true = (refl, refl)
  buy_metas-Covers true false = (refl, refl)
  buy_metas-Covers false true = (refl, refl)
  buy_metas-Covers false false = (refl, refl)

  sell_metas-Covers :
      (c d : Bool)
      → Covers accounts
          (sell_metas accounts ++ remaining_metas accounts c d false)
          (invoke_infos accounts c d false)
  unfolding remaining_metas sell_metas invoke_infos signers
  sell_metas-Covers true true = (refl, refl)
  sell_metas-Covers true false = (refl, refl)
  sell_metas-Covers false true = (refl, refl)
  sell_metas-Covers false false = (refl, refl)

-- The appended metas, for the pool that is parsed again when the instruction is invoked.
append-parsed :
    (accounts : PumpSwapAccounts) (metas all : List AccountMeta) (is_buy : Bool)
    → append_current_remaining_accounts accounts metas is_buy ≡ ok all
    → (pool : PumpPoolPrefix) × (parse_pump_pool accounts.pool.data_bytes ≡ ok pool)
      × (metas ++ remaining_metas accounts pool.is_cashback_coin (has_creator pool) is_buy ≡ all)
unfolding append_current_remaining_accounts
append-parsed accounts metas all is_buy h =
    let (pool, parsed, h1) = >>=-eq-ok (parse_pump_pool accounts.pool.data_bytes) _ h in
    (pool, parsed, ok-injective h1)

module _ {Ledger : Type 0} (p : Platform Ledger) (accounts : PumpSwapAccounts)
    {before after : Ledger} where
  -- The call of `invoke` with the appended metas, for metas that cover the accounts whatever the
  -- pool is.
  invoke-Sent :
      (base metas : List AccountMeta) (discriminator content : List ℕ) (a m : ℕ) (is_buy : Bool)
      → ((c d : Bool)
          → Covers accounts
              (base ++ remaining_metas accounts c d is_buy)
              (invoke_infos accounts c d is_buy))
      → append_current_remaining_accounts accounts base is_buy ≡ ok metas
      → invoke p accounts metas content is_buy before ≡ ok after
      → bytes 8 content 0 ≡ ok discriminator
      → read_u64 content 8 ≡ ok a
      → read_u64 content 16 ≡ ok m
      → Sent p pump_swap_program_id accounts.user.key discriminator a m before after
  unfolding invoke
  invoke-Sent base metas discriminator content a m is_buy covers appended h tag amount min_out =
      let (pool, parsed, same) = append-parsed accounts base metas is_buy appended in
      let (again, reparsed, invoked) = >>=-eq-ok (parse_pump_pool accounts.pool.data_bytes) _ h in
      let with_pool = covers pool.is_cashback_coin (has_creator pool) in
      let covered =
        subst
          (λ z.
            Covers accounts z
              (invoke_infos accounts again.is_cashback_coin (has_creator again) is_buy))
          same
          (subst
            (λ z.
              Covers accounts
                (base ++ remaining_metas accounts pool.is_cashback_coin (has_creator pool) is_buy)
                (invoke_infos accounts z.is_cashback_coin (has_creator z) is_buy))
            (ok-injective (sym parsed ∙ reparsed)) with_pool) in
      record {
        instruction = record {
          program_id = pump_swap_program_id;
          accounts = metas;
          instruction_data = content;
        };
        infos = invoke_infos accounts again.is_cashback_coin (has_creator again) is_buy;
        invoked = invoked;
        to_program = refl;
        tag = tag;
        amount_read = amount;
        min_out_read = min_out;
        passed = covered.0;
        signed = covered.1;
      }

  module _ (a m : ℕ) (small_amount : a < u64_size) (small_min : m < u64_size) where
    -- A purchase with two u64 amounts that succeeds was made for accounts that match the pool, and
    -- sent PumpSwap one instruction to buy, which only the user signs and whose data reads back as
    -- the amount and the minimum, together with exactly the accounts that it names, in order.
    pub buy_exact_quote_in-Sent :
        buy_exact_quote_in p accounts a m before ≡ ok after
        → MatchesPool accounts
          × Sent p pump_swap_program_id accounts.user.key pump_buy_exact_quote_in_discriminator a m
              before after
    unfolding buy_exact_quote_in
    buy_exact_quote_in-Sent h =
        let (valid, h1) = >>-eq-ok (validate p accounts) _ h in
        let (metas, appended, invoked) =
          >>=-eq-ok (append_current_remaining_accounts accounts (buy_metas accounts) true) _ h1 in
        (
          validate-MatchesPool p accounts valid,
          invoke-Sent (buy_metas accounts) metas pump_buy_exact_quote_in_discriminator
              (buy_data a m) a m true (buy_metas-Covers accounts) appended invoked
              (buy_data-tag a m) (buy_data-amount a m small_amount) (buy_data-min a m small_min),
        )

    -- A sale with two u64 amounts that succeeds was made for accounts that match the pool and whose
    -- cashback accounts are ready, and sent PumpSwap one instruction to sell, which only the user
    -- signs and whose data reads back as the amount and the minimum, together with exactly the
    -- accounts that it names, in order.
    pub sell-Sent :
        sell p accounts a m before ≡ ok after
        → MatchesPool accounts
          × (cashback_sell_is_ready accounts ≡ ok true)
          × Sent p pump_swap_program_id accounts.user.key pump_sell_discriminator a m before after
    unfolding sell
    sell-Sent h =
        let (valid, h1) = >>-eq-ok (validate p accounts) _ h in
        let (ready, is_ready, h2) = >>=-eq-ok (cashback_sell_is_ready accounts) _ h1 in
        let (yes_ready, h3) = require->>-eq-ok ready _ _ h2 in
        let (metas, appended, invoked) =
          >>=-eq-ok (append_current_remaining_accounts accounts (sell_metas accounts) false) _ h3 in
        (
          validate-MatchesPool p accounts valid,
          is_ready ∙ ap ok yes_ready,
          invoke-Sent (sell_metas accounts) metas pump_sell_discriminator (sell_data a m) a m false
              (sell_metas-Covers accounts) appended invoked (sell_data-tag a m)
              (sell_data-amount a m small_amount) (sell_data-min a m small_min),
        )
