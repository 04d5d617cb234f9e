-- ===== src/Route/Tests.antt =====
-- Routes between two concrete exchanges, and concrete choices.
use sol_arb_executor.Prelude.{
  ℕ, ◌+◌, ◌-◌, ◌*◌, ◌≤◌, ◌<◌, ◌≡◌, ◌↔◌, refl, true, false, List, [], ◌∷◌, ◌++◌, some, replicate,
  find?,
}
use sol_arb_executor.Prelude.Int.{pos}
use sol_arb_executor.Errors.{Result, ArbError, ok}
use sol_arb_executor.Word.{u64_size, checked_sub, checked_add_u64}
use sol_arb_executor.Accounts.Types.{AccountInfo}
use sol_arb_executor.Accounts.Bytes.{bytes, from_le, signed, read_unsigned, read_i64}
use sol_arb_executor.Accounts.Bins.{parse_bin_array_index}
use sol_arb_executor.Dynamic.Build.{find_array}
use sol_arb_executor.Route.Events.{pump_to_meteora, meteora_to_pump}
use sol_arb_executor.Route.Checks.{required_second_leg_out, enforce, checked_increase}
use sol_arb_executor.Route.Checks.Exact.{
  enforce-eq-ok, checked_increase-eq-ok, required_second_leg_out-exact,
}
use sol_arb_executor.Route.Direction.{choose_direction, ordered_bin_arrays}
use sol_arb_executor.Route.Direction.Chooses.{Chooses, choose_direction-Chooses}
use sol_arb_executor.Route.Direction.Ordered.{Selects, ordered_bin_arrays-Selects}
use sol_arb_executor.Route.Execute.{
  UserAccount, user_wsol, user_target, Exchanges, RouteAccounts, Outcome, route_events,
  execute_pump_to_meteora, execute_meteora_to_pump,
}
use sol_arb_executor.Route.Execute.Settled.{
  Settled, execute_pump_to_meteora-Settled, execute_meteora_to_pump-Settled,
}

enforce-eq-ok_example :
    (enforce 10_000 10_100 100 50 50 ≡ ok tt)
    ↔ ((10_000 + 100 < u64_size) × (10_000 + 100 ≤ 10_100) × (◌≡◌ {A = ℕ} 50 50))
enforce-eq-ok_example = enforce-eq-ok 10_000 10_100 100 50 50

checked_increase-eq-ok_example :
    (checked_increase 10 17 ≡ ok 7) ↔ ((0 < 7) × (◌≡◌ {A = ℕ} 17 (10 + 7)))
checked_increase-eq-ok_example = checked_increase-eq-ok 10 17 7

required : required_second_leg_out 20_000_000 10_000_000 10_000 ≡ ok 10_010_000
unfolding required_second_leg_out checked_add_u64
required = refl

required_second_leg_out-exact_example :
    (10_010_000 ≤ 10_020_000) ↔ ((0 < 10_020_000) × (20_000_000 + 10_000 ≤ 10_000_000 + 10_020_000))
required_second_leg_out-exact_example =
    required_second_leg_out-exact 20_000_000 10_000_000 10_000 10_020_000 required

choose_direction-Chooses_example :
    Chooses (some 1010) (some 1020) 1001 (choose_direction (some 1010) (some 1020) 1001)
choose_direction-Chooses_example = choose_direction-Chooses (some 1010) (some 1020) 1001

-- A bin array with the index that its ninth byte gives.
abbrev array : ℕ → AccountInfo
array index = record {
  key = [];
  owner = [];
  is_signer = false;
  is_writable = true;
  executable = false;
  data_bytes = replicate 8 0 ++ index ∷ replicate 7 0;
}

ordered :
    ordered_bin_arrays (array 1 ∷ array 2 ∷ array 3 ∷ []) (pos 3 ∷ pos 1 ∷ [])
    ≡ ok (array 3 ∷ array 1 ∷ [])
unfolding ordered_bin_arrays find_array find? parse_bin_array_index bytes from_le signed
    read_unsigned read_i64
ordered = refl

ordered_bin_arrays-Selects_example :
    Selects (array 1 ∷ array 2 ∷ array 3 ∷ []) (pos 3 ∷ pos 1 ∷ []) (array 3 ∷ array 1 ∷ [])
ordered_bin_arrays-Selects_example =
    ordered_bin_arrays-Selects (array 1 ∷ array 2 ∷ array 3 ∷ []) (pos 3 ∷ pos 1 ∷ []) ordered

-- A ledger of the two balances of the trader.
abbrev Balances : Type 0
Balances = ℕ × ℕ

-- WSOL buys twice as much of the target, which sells one for one.
abbrev buy : ℕ → ℕ → Balances → Result ArbError Balances
buy amount min_out b = ok (b.0 - amount, b.1 + amount * 2)

abbrev sell : ℕ → ℕ → Balances → Result ArbError Balances
sell amount min_out b = ok (b.0 + amount, b.1 - amount)

abbrev swap :
    UserAccount → UserAccount → List AccountInfo → ℕ → ℕ → Balances → Result ArbError Balances
swap user_wsol to arrays amount min_out b = buy amount min_out b
swap user_target to arrays amount min_out b = sell amount min_out b

abbrev exchanges : Exchanges Balances
exchanges = record {
  wsol_balance = λ b. b.0;
  target_balance = λ b. b.1;
  buy_exact_quote_in = buy;
  sell = sell;
  swap2 = swap;
}

abbrev accounts : RouteAccounts
accounts = record { trader = []; target_mint = []; user_wsol_amount = 1000; user_target_amount = 5 }

abbrev outcome_forward : Outcome Balances
outcome_forward = record {
  ledger = (1100, 5);
  accounts = record accounts { user_wsol_amount = 1100 };
  events = route_events pump_to_meteora accounts 200 200 1100;
}

forward : execute_pump_to_meteora exchanges accounts (1000, 5) [] 100 50 ≡ ok outcome_forward
unfolding execute_pump_to_meteora checked_increase required_second_leg_out enforce checked_sub
    checked_add_u64
forward = refl

execute_pump_to_meteora-Settled_example :
    (bought : Balances) × (buy 100 1 (1000, 5) ≡ ok bought)
    × (first_delta : ℕ) × (required : ℕ) × (required_second_leg_out 1000 bought.0 50 ≡ ok required)
    × Settled exchanges pump_to_meteora accounts 50 bought first_delta outcome_forward
    × (sell first_delta required bought ≡ ok (1100, 5))
execute_pump_to_meteora-Settled_example =
    execute_pump_to_meteora-Settled exchanges accounts (1000, 5) [] 100 50 forward

abbrev outcome_reverse : Outcome Balances
outcome_reverse = record {
  ledger = (1100, 5);
  accounts = record accounts { user_wsol_amount = 1100 };
  events = route_events meteora_to_pump accounts 200 200 1100;
}

reverse : execute_meteora_to_pump exchanges accounts (1000, 5) [] 100 50 ≡ ok outcome_reverse
unfolding execute_meteora_to_pump checked_increase required_second_leg_out enforce checked_sub
    checked_add_u64
reverse = refl

execute_meteora_to_pump-Settled_example :
    (bought : Balances) × (buy 100 1 (1000, 5) ≡ ok bought)
    × (first_delta : ℕ) × (required : ℕ) × (required_second_leg_out 1000 bought.0 50 ≡ ok required)
    × Settled exchanges meteora_to_pump accounts 50 bought first_delta outcome_reverse
    × (sell first_delta required bought ≡ ok (1100, 5))
execute_meteora_to_pump-Settled_example =
    execute_meteora_to_pump-Settled exchanges accounts (1000, 5) [] 100 50 reverse
