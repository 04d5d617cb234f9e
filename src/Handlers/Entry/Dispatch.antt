-- ===== src/Handlers/Entry/Dispatch.antt =====
-- The entry points of lib.rs against the trades that they make.
use mathlib.Core.Path.{subst}
use sol_arb_executor.Prelude.{ℕ, min, ◌≤◌, ◌<◌, ◌≡◌, refl, ap, arith, true, List, ◌∷◌, ◌&&◌, leb}
use sol_arb_executor.Errors.{ok, >>=-eq-ok, >>-eq-ok, require->>-eq-ok, ok-injective}
use sol_arb_executor.Word.{u64_size}
use sol_arb_executor.Accounts.Types.{AccountInfo}
use sol_arb_executor.Dynamic.Types.{
  SelectedDirection, pump_to_meteora, meteora_to_pump, BestDirectionDynamicArgs,
}
use sol_arb_executor.Dynamic.Decide
use sol_arb_executor.Route.Events.{Event}
use sol_arb_executor.Route.Checks.{validate_args}
use sol_arb_executor.Route.Direction.{ordered_bin_arrays}
use sol_arb_executor.Route.Execute.{Outcome}
use sol_arb_executor.Validate.Platform.{Platform}
use sol_arb_executor.Handlers.Context.{ExecuteRoute, validate_route_mints}
use sol_arb_executor.Handlers.Market.{validate_quote_accounts}
use sol_arb_executor.Handlers.Select.{select_dynamic}
use sol_arb_executor.Handlers.Direction.{select_direction}
use sol_arb_executor.Handlers.Run.{
  PumpToMeteoraArgs, MeteoraToPumpArgs, BestDirectionArgs, execute, selection_event,
  pump_to_meteora_handler, meteora_to_pump_handler, best_direction_handler, dynamic_handler,
}
use sol_arb_executor.Handlers.Entry.{
  EntryPoint, execute_pump_to_meteora, execute_meteora_to_pump, execute_best_direction,
  execute_best_direction_dynamic, dispatch,
}
use sol_arb_executor.Handlers.Entry.Trades.{IsSound, IsTrade, execute-IsTrade}
use sol_arb_executor.Handlers.Entry.Allows.{min_profit_of, Allows, amount_limit, IsTradeOf}

args_positive : (amount m : ℕ) → validate_args amount m ≡ ok tt → (0 < amount) × (0 < m)
unfolding validate_args
args_positive amount m h = ground arith

dynamic_args_positive :
    (args : BestDirectionDynamicArgs)
    → Decide.validate_args args ≡ ok tt
    → (0 < args.min_wsol_amount_in) × (0 < args.min_profit_lamports)
unfolding Decide.validate_args
dynamic_args_positive args h = ground arith

in_range :
    (lo a top balance : ℕ)
    → (leb lo a && leb a (min top balance)) ≡ true
    → (lo ≤ a) × (a ≤ top) × (a ≤ balance)
in_range lo a top balance h = ground arith

-- An event before those of a trade.
announce :
    {Ledger : Type 0} (p : Platform Ledger) (accounts : ExecuteRoute) (d : SelectedDirection)
    (amount m : ℕ) (start : Ledger) (o : Outcome Ledger) (event : Event)
    → IsTrade p accounts d amount m start o
    → IsTrade p accounts d amount m start (record o { events = event ∷ o.events })
announce p accounts d amount m start o event t = record {
  bought = t.bought;
  first_delta = t.first_delta;
  second_delta = t.second_delta;
  required = t.required;
  legs = t.legs;
  acquired = t.acquired;
  restored = t.restored;
  profit = t.profit;
  earlier = event ∷ t.earlier;
  log = ap (λ events. event ∷ events) t.log;
}

module _ {Ledger : Type 0} (p : Platform Ledger) (sound : IsSound p) (accounts : ExecuteRoute)
    (remaining : List AccountInfo) (start : Ledger) {o : Outcome Ledger} where
  pump_to_meteora_handler-IsTradeOf :
      (args : PumpToMeteoraArgs)
      → args.wsol_amount_in < u64_size
      → pump_to_meteora_handler p accounts remaining args start ≡ ok o
      → IsTradeOf p (execute_pump_to_meteora args) accounts start o
  unfolding pump_to_meteora_handler Allows min_profit_of
  pump_to_meteora_handler-IsTradeOf args small h =
      let (valid, h1) = >>-eq-ok (validate_args args.wsol_amount_in args.min_profit_lamports) _ h in
      let (_, traded) = >>-eq-ok (validate_route_mints p accounts) _ h1 in
      let (amount_pos, profit_pos) =
        args_positive args.wsol_amount_in args.min_profit_lamports valid in
      (
        pump_to_meteora,
        args.wsol_amount_in,
        (refl, refl),
        amount_pos,
        profit_pos,
        execute-IsTrade p sound accounts start pump_to_meteora remaining args.wsol_amount_in
            args.min_profit_lamports small traded,
      )

  meteora_to_pump_handler-IsTradeOf :
      (args : MeteoraToPumpArgs)
      → args.wsol_amount_in < u64_size
      → meteora_to_pump_handler p accounts remaining args start ≡ ok o
      → IsTradeOf p (execute_meteora_to_pump args) accounts start o
  unfolding meteora_to_pump_handler Allows min_profit_of
  meteora_to_pump_handler-IsTradeOf args small h =
      let (valid, h1) = >>-eq-ok (validate_args args.wsol_amount_in args.min_profit_lamports) _ h in
      let (_, traded) = >>-eq-ok (validate_route_mints p accounts) _ h1 in
      let (amount_pos, profit_pos) =
        args_positive args.wsol_amount_in args.min_profit_lamports valid in
      (
        meteora_to_pump,
        args.wsol_amount_in,
        (refl, refl),
        amount_pos,
        profit_pos,
        execute-IsTrade p sound accounts start meteora_to_pump remaining args.wsol_amount_in
            args.min_profit_lamports small traded,
      )

  best_direction_handler-IsTradeOf :
      (args : BestDirectionArgs)
      → args.wsol_amount_in < u64_size
      → best_direction_handler p accounts remaining args start ≡ ok o
      → IsTradeOf p (execute_best_direction args) accounts start o
  unfolding best_direction_handler Allows min_profit_of
  best_direction_handler-IsTradeOf args small h =
      let (valid, h1) = >>-eq-ok (validate_args args.wsol_amount_in args.min_profit_lamports) _ h in
      let (_, h2) = >>-eq-ok (validate_route_mints p accounts) _ h1 in
      let (_, h3) = >>-eq-ok (validate_quote_accounts p accounts remaining) _ h2 in
      let (timestamp, _, h4) = >>=-eq-ok (p.unix_timestamp start) _ h3 in
      let (chosen, _, h5) =
        >>=-eq-ok
          (select_direction p accounts remaining args.wsol_amount_in args.min_profit_lamports
            timestamp)
          _ h4 in
      let (arrays, _, traded) = >>=-eq-ok (ordered_bin_arrays remaining chosen.1) _ h5 in
      let (amount_pos, profit_pos) =
        args_positive args.wsol_amount_in args.min_profit_lamports valid in
      (
        chosen.0,
        args.wsol_amount_in,
        refl,
        amount_pos,
        profit_pos,
        execute-IsTrade p sound accounts start chosen.0 arrays args.wsol_amount_in
            args.min_profit_lamports small traded,
      )

  dynamic_handler-IsTradeOf :
      (args : BestDirectionDynamicArgs)
      → args.max_wsol_amount_in < u64_size
      → dynamic_handler p accounts remaining args start ≡ ok o
      → IsTradeOf p (execute_best_direction_dynamic args) accounts start o
  unfolding dynamic_handler Allows min_profit_of
  dynamic_handler-IsTradeOf args small h =
      let (valid, h1) = >>-eq-ok (Decide.validate_args args) _ h in
      let (_, h2) = >>-eq-ok (validate_route_mints p accounts) _ h1 in
      let (_, h3) = >>-eq-ok (validate_quote_accounts p accounts remaining) _ h2 in
      let top = min args.max_wsol_amount_in accounts.user_wsol.amount in
      let (_, h4) = require->>-eq-ok (leb args.min_wsol_amount_in top) _ _ h3 in
      let (timestamp, _, h5) = >>=-eq-ok (p.unix_timestamp start) _ h4 in
      let (selection, _, h6) =
        >>=-eq-ok
          (select_dynamic p accounts remaining
            (record {
              min_amount = args.min_wsol_amount_in;
              max_amount = top;
              min_profit = args.min_profit_lamports;
            })
            timestamp)
          _ h5 in
      let (inside, h7) =
        require->>-eq-ok
          (leb args.min_wsol_amount_in selection.choice.amount_in
            && leb selection.choice.amount_in top)
          _ _ h6 in
      let (arrays, _, h8) =
        >>=-eq-ok (ordered_bin_arrays remaining selection.choice.used_indices) _ h7 in
      let (outcome, traded, h9) =
        >>=-eq-ok
          (execute p selection.direction accounts arrays selection.choice.amount_in
            args.min_profit_lamports start)
          _ h8 in
      let (amount_pos, profit_pos) = dynamic_args_positive args valid in
      let bounds =
        in_range args.min_wsol_amount_in selection.choice.amount_in args.max_wsol_amount_in
          accounts.user_wsol.amount inside in
      (
        selection.direction,
        selection.choice.amount_in,
        bounds,
        omega (arith, bounds),
        profit_pos,
        subst
            (IsTrade p accounts selection.direction selection.choice.amount_in
              args.min_profit_lamports start)
            (ok-injective h9)
            (announce p accounts selection.direction selection.choice.amount_in
              args.min_profit_lamports start outcome (selection_event args top selection)
              (execute-IsTrade p sound accounts start selection.direction arrays
                selection.choice.amount_in args.min_profit_lamports (omega (arith, bounds))
                traded)),
      )

-- On a sound platform, every call of the program that names a u64 amount and succeeds is a trade in a
-- direction and of a positive amount that the call allows, for the positive minimum profit that it
-- asks for.
pub dispatch-IsTradeOf :
    {Ledger : Type 0} (p : Platform Ledger) (e : EntryPoint) (accounts : ExecuteRoute)
    (remaining : List AccountInfo) (start : Ledger) {o : Outcome Ledger}
    → IsSound p
    → amount_limit e < u64_size
    → dispatch p e accounts remaining start ≡ ok o
    → IsTradeOf p e accounts start o
unfolding dispatch amount_limit
dispatch-IsTradeOf p (execute_pump_to_meteora args) accounts remaining start sound small h =
    pump_to_meteora_handler-IsTradeOf p sound accounts remaining start args small h
dispatch-IsTradeOf p (execute_meteora_to_pump args) accounts remaining start sound small h =
    meteora_to_pump_handler-IsTradeOf p sound accounts remaining start args small h
dispatch-IsTradeOf p (execute_best_direction args) accounts remaining start sound small h =
    best_direction_handler-IsTradeOf p sound accounts remaining start args small h
dispatch-IsTradeOf p (execute_best_direction_dynamic args) accounts remaining start sound small h =
    dynamic_handler-IsTradeOf p sound accounts remaining start args small h
