-- ===== src/Route/Execute/Settled.antt =====
-- What a route that succeeds has done, whatever the exchanges do.
use sol_arb_executor.Prelude.{ℕ, ◌+◌, ◌≤◌, ◌<◌, ◌≡◌, List, ap, sym, ◌∙◌}
use sol_arb_executor.Errors.{ok, >>=-eq-ok, ok-injective}
use sol_arb_executor.Accounts.Types.{AccountInfo}
use sol_arb_executor.Route.Events.{RouteDirection, pump_to_meteora, meteora_to_pump}
use sol_arb_executor.Route.Checks.{required_second_leg_out, enforce, checked_increase}
use sol_arb_executor.Route.Checks.Exact.{enforce-eq-ok, checked_increase-eq-ok}
use sol_arb_executor.Route.Execute.{
  Exchanges, RouteAccounts, Outcome, route_events, user_wsol, user_target, execute_pump_to_meteora,
  execute_meteora_to_pump,
}

module _ {Ledger : Type 0} (x : Exchanges Ledger) where
  -- What holds of the outcome of a route, with the ledger between its legs.
  pub record Settled (d : RouteDirection) (a : RouteAccounts) (min_profit : ℕ) (bought : Ledger)
      (first_delta : ℕ) (o : Outcome Ledger) : Type 0 where
    pub second_delta : ℕ
    pub target_grew :
        (0 < first_delta) × (x.target_balance bought ≡ a.user_target_amount + first_delta)
    pub wsol_grew :
        (0 < second_delta) × (x.wsol_balance o.ledger ≡ x.wsol_balance bought + second_delta)
    pub profit : a.user_wsol_amount + min_profit ≤ x.wsol_balance o.ledger
    pub target_restored : x.target_balance o.ledger ≡ a.user_target_amount
    pub log : o.events ≡ route_events d a first_delta second_delta (x.wsol_balance o.ledger)

  settle :
      (d : RouteDirection) (a : RouteAccounts) (m : ℕ) (bought sold : Ledger) (first second : ℕ)
      (o : Outcome Ledger)
      → checked_increase a.user_target_amount (x.target_balance bought) ≡ ok first
      → checked_increase (x.wsol_balance bought) (x.wsol_balance sold) ≡ ok second
      → enforce a.user_wsol_amount
          (x.wsol_balance sold)
          m
          a.user_target_amount
          (x.target_balance sold)
        ≡ ok tt
      → o.ledger ≡ sold
      → o.events ≡ route_events d a first second (x.wsol_balance sold)
      → Settled d a m bought first o
  settle d a m bought sold first second o up again checked ledger events =
      let (small, reached, restored) = (enforce-eq-ok _ _ _ _ _).0 checked in
      record {
        second_delta = second;
        target_grew = (checked_increase-eq-ok _ _ _).0 up;
        wsol_grew = rw ledger ((checked_increase-eq-ok _ _ _).0 again);
        profit = rw ledger reached;
        target_restored = rw ledger restored;
        log = rw ledger events;
      }

  module _ (a : RouteAccounts) (s : Ledger) (arrays : List AccountInfo) (amount m : ℕ)
      {o : Outcome Ledger} where
    -- Pump to Meteora: whatever the exchanges do, a route that succeeds bought with the whole
    -- amount, swapped all that the first leg added to the target balance for the output that the
    -- minimum profit requires, leaves the target balance as it was and the WSOL balance at least
    -- the minimum profit above the initial one, and logs the two increases.
    pub execute_pump_to_meteora-Settled :
        execute_pump_to_meteora x a s arrays amount m ≡ ok o
        → (bought : Ledger) × (x.buy_exact_quote_in amount 1 s ≡ ok bought)
          × (first_delta : ℕ) × (required : ℕ) × (required_second_leg_out a.user_wsol_amount
                (x.wsol_balance bought)
                m
              ≡ ok required)
          × Settled pump_to_meteora a m bought first_delta o
          × (x.swap2 user_target user_wsol arrays first_delta required bought ≡ ok o.ledger)
    unfolding execute_pump_to_meteora
    execute_pump_to_meteora-Settled h =
        let (bought, b, h1) = >>=-eq-ok (x.buy_exact_quote_in amount 1 s) _ h in
        let (first, up, h2) =
          >>=-eq-ok (checked_increase a.user_target_amount (x.target_balance bought)) _ h1 in
        let (required, needed, h3) =
          >>=-eq-ok (required_second_leg_out a.user_wsol_amount (x.wsol_balance bought) m) _ h2 in
        let (sold, swapped, h4) =
          >>=-eq-ok (x.swap2 user_target user_wsol arrays first required bought) _ h3 in
        let (second, again, h5) =
          >>=-eq-ok (checked_increase (x.wsol_balance bought) (x.wsol_balance sold)) _ h4 in
        let (_, checked, h6) =
          >>=-eq-ok
            (enforce a.user_wsol_amount (x.wsol_balance sold) m a.user_target_amount
              (x.target_balance sold))
            _ h5 in
        let end = ok-injective h6 in
        (
          bought,
          b,
          first,
          required,
          needed,
          settle pump_to_meteora a m bought sold first second o up again checked
              (sym (ap (λ z. z.ledger) end)) (sym (ap (λ z. z.events) end)),
          swapped ∙ ap (λ z. ok z.ledger) end,
        )

    -- Meteora to Pump: whatever the exchanges do, a route that succeeds swapped the whole amount,
    -- sold all that the first leg added to the target balance for the output that the minimum
    -- profit requires, leaves the target balance as it was and the WSOL balance at least the
    -- minimum profit above the initial one, and logs the two increases.
    pub execute_meteora_to_pump-Settled :
        execute_meteora_to_pump x a s arrays amount m ≡ ok o
        → (bought : Ledger) × (x.swap2 user_wsol user_target arrays amount 1 s ≡ ok bought)
          × (first_delta : ℕ) × (required : ℕ) × (required_second_leg_out a.user_wsol_amount
                (x.wsol_balance bought)
                m
              ≡ ok required)
          × Settled meteora_to_pump a m bought first_delta o
          × (x.sell first_delta required bought ≡ ok o.ledger)
    unfolding execute_meteora_to_pump
    execute_meteora_to_pump-Settled h =
        let (bought, b, h1) = >>=-eq-ok (x.swap2 user_wsol user_target arrays amount 1 s) _ h in
        let (first, up, h2) =
          >>=-eq-ok (checked_increase a.user_target_amount (x.target_balance bought)) _ h1 in
        let (required, needed, h3) =
          >>=-eq-ok (required_second_leg_out a.user_wsol_amount (x.wsol_balance bought) m) _ h2 in
        let (sold, swapped, h4) = >>=-eq-ok (x.sell first required bought) _ h3 in
        let (second, again, h5) =
          >>=-eq-ok (checked_increase (x.wsol_balance bought) (x.wsol_balance sold)) _ h4 in
        let (_, checked, h6) =
          >>=-eq-ok
            (enforce a.user_wsol_amount (x.wsol_balance sold) m a.user_target_amount
              (x.target_balance sold))
            _ h5 in
        let end = ok-injective h6 in
        (
          bought,
          b,
          first,
          required,
          needed,
          settle meteora_to_pump a m bought sold first second o up again checked
              (sym (ap (λ z. z.ledger) end)) (sym (ap (λ z. z.events) end)),
          swapped ∙ ap (λ z. ok z.ledger) end,
        )
