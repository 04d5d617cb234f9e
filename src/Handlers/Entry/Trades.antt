-- ===== src/Handlers/Entry/Trades.antt =====
-- What a call of the program amounts to: a trade of two instructions with a profit.
use mathlib.Core.Path.{subst}
use sol_arb_executor.Prelude.{ℕ, ◌+◌, ◌≤◌, ◌<◌, ◌≡◌, arith, List, [], ◌++◌}
use sol_arb_executor.Errors.{ok}
use sol_arb_executor.Word.{u64_size, checked_add_u64}
use sol_arb_executor.Accounts.Types.{AccountInfo}
use sol_arb_executor.Dynamic.Types.{SelectedDirection, pump_to_meteora, meteora_to_pump}
use sol_arb_executor.Route.Events.{Event}
use sol_arb_executor.Route.Checks.{required_second_leg_out}
use sol_arb_executor.Route.Execute.{Outcome, route_events}
use sol_arb_executor.Route.Execute.Settled.{
  execute_pump_to_meteora-Settled, execute_meteora_to_pump-Settled,
}
use sol_arb_executor.Validate.Constants.{
  pump_swap_program_id, meteora_dlmm_program_id, pump_sell_discriminator,
  pump_buy_exact_quote_in_discriminator, meteora_swap2_discriminator,
}
use sol_arb_executor.Validate.Platform.{Platform}
use sol_arb_executor.Adapters.Sent.{Sent}
use sol_arb_executor.Adapters.PumpSwap.Trade.{buy_exact_quote_in-Sent, sell-Sent}
use sol_arb_executor.Adapters.MeteoraDlmm.Swap.{swap2-Sent}
use sol_arb_executor.Handlers.Context.{ExecuteRoute, with_infos, pump_accounts, meteora_accounts}
use sol_arb_executor.Handlers.Run.{exchanges, route_accounts, execute, event_direction}

-- What Solana and the token program ensure: the key of an account never changes, and the amount of a
-- token account is a u64.
pub record IsSound {Ledger : Type 0} (p : Platform Ledger) : Type 0 where
  pub keeps_key : (ledger : Ledger) (a : AccountInfo) → (p.refresh ledger a).key ≡ a.key
  pub amount_small : (ledger : Ledger) (key : List ℕ) → p.reload ledger key < u64_size

-- The two instructions of a trade, between three ledgers.
abbrev pub Legs :
    {Ledger : Type 0}
    → Platform Ledger
    → List ℕ
    → SelectedDirection
    → ℕ
    → ℕ
    → ℕ
    → Ledger
    → Ledger
    → Ledger
    → Type 0
Legs p trader pump_to_meteora amount first required start bought end =
    Sent p pump_swap_program_id trader pump_buy_exact_quote_in_discriminator amount 1 start bought
    × Sent p meteora_dlmm_program_id trader meteora_swap2_discriminator first required bought end
Legs p trader meteora_to_pump amount first required start bought end =
    Sent p meteora_dlmm_program_id trader meteora_swap2_discriminator amount 1 start bought
    × Sent p pump_swap_program_id trader pump_sell_discriminator first required bought end

-- A trade: two instructions, signed by the trader, of which the second gives away exactly what the
-- first added to the target balance; after them the WSOL balance holds the minimum profit above the
-- initial one, and the target balance is the initial one; the log ends with the events of the route.
pub record IsTrade {Ledger : Type 0} (p : Platform Ledger) (accounts : ExecuteRoute)
    (d : SelectedDirection) (amount min_profit : ℕ) (start : Ledger) (o : Outcome Ledger)
    : Type 0 where
  pub bought : Ledger
  pub first_delta : ℕ
  pub second_delta : ℕ
  pub required : ℕ
  pub legs : Legs p accounts.trader.key d amount first_delta required start bought o.ledger
  pub acquired :
      p.reload bought accounts.user_target.info.key ≡ accounts.user_target.amount + first_delta
  pub restored : p.reload o.ledger accounts.user_target.info.key ≡ accounts.user_target.amount
  pub profit :
      accounts.user_wsol.amount + min_profit ≤ p.reload o.ledger accounts.user_wsol.info.key
  pub earlier : List Event
  pub log :
      o.events
      ≡ earlier
        ++ route_events
            (event_direction d)
            (route_accounts accounts)
            first_delta
            second_delta
            (p.reload o.ledger accounts.user_wsol.info.key)

required_small :
    (initial before m : ℕ) {required : ℕ}
    → required_second_leg_out initial before m ≡ ok required
    → required < u64_size
unfolding required_second_leg_out checked_add_u64
required_small initial before m h = ground arith

module _ {Ledger : Type 0} (p : Platform Ledger) (sound : IsSound p) (accounts : ExecuteRoute)
    (start : Ledger) where
  -- The sender of an instruction is the trader, whatever the ledger.
  from_trader :
      (program discriminator : List ℕ) (a m : ℕ) (before after : Ledger)
      → Sent p program (p.refresh before accounts.trader).key discriminator a m before after
      → Sent p program accounts.trader.key discriminator a m before after
  from_trader program discriminator a m before after =
      subst (λ k. Sent p program k discriminator a m before after)
        (sound.keeps_key before accounts.trader)

  pub execute-IsTrade :
      (d : SelectedDirection) (arrays : List AccountInfo) (amount m : ℕ) {o : Outcome Ledger}
      → amount < u64_size
      → execute p d accounts arrays amount m start ≡ ok o
      → IsTrade p accounts d amount m start o
  unfolding execute exchanges route_accounts event_direction with_infos pump_accounts
      meteora_accounts
  execute-IsTrade pump_to_meteora arrays amount m {o} small h =
      let (bought, buys, first, required, needed, settled, swaps) =
        execute_pump_to_meteora-Settled (exchanges p accounts) (route_accounts accounts) start
          arrays amount m h in
      let target_small = sound.amount_small bought accounts.user_target.info.key in
      let (_, sent_first) = buy_exact_quote_in-Sent p _ amount 1 small (ground arith) buys in
      let (_, _, sent_second) =
        swap2-Sent p _ _ first required (omega (arith, settled.target_grew))
          (required_small _ _ _ needed) swaps in
      record {
        bought = bought;
        first_delta = first;
        second_delta = settled.second_delta;
        required = required;
        legs = (from_trader _ _ _ _ _ _ sent_first, from_trader _ _ _ _ _ _ sent_second);
        acquired = settled.target_grew.1;
        restored = settled.target_restored;
        profit = settled.profit;
        earlier = [];
        log = settled.log;
      }
  execute-IsTrade meteora_to_pump arrays amount m {o} small h =
      let (bought, buys, first, required, needed, settled, sells) =
        execute_meteora_to_pump-Settled (exchanges p accounts) (route_accounts accounts) start
          arrays amount m h in
      let target_small = sound.amount_small bought accounts.user_target.info.key in
      let (_, _, sent_first) = swap2-Sent p _ _ amount 1 small (ground arith) buys in
      let (_, _, sent_second) =
        sell-Sent p _ first required (omega (arith, settled.target_grew))
          (required_small _ _ _ needed) sells in
      record {
        bought = bought;
        first_delta = first;
        second_delta = settled.second_delta;
        required = required;
        legs = (from_trader _ _ _ _ _ _ sent_first, from_trader _ _ _ _ _ _ sent_second);
        acquired = settled.target_grew.1;
        restored = settled.target_restored;
        profit = settled.profit;
        earlier = [];
        log = settled.log;
      }
