-- ===== src/Route/Checks/Exact.antt =====
-- What the checks of post_trade_checks.rs and balance.rs accept.
use sol_arb_executor.Prelude.{ℕ, ◌+◌, ◌≤◌, ◌<◌, ◌≡◌, ◌↔◌, arith}
use sol_arb_executor.Errors.{ok}
use sol_arb_executor.Word.{u64_size, checked_sub, checked_add_u64}
use sol_arb_executor.Route.Checks.{required_second_leg_out, enforce, checked_increase}

-- The post-trade check passes exactly when the required final balance is a u64, the final balance
-- reaches it, and the target balance is what it was.
pub enforce-eq-ok :
    (initial_wsol final_wsol min_profit initial_target final_target : ℕ)
    → (enforce initial_wsol final_wsol min_profit initial_target final_target ≡ ok tt) ↔ (
        (initial_wsol + min_profit < u64_size)
        × (initial_wsol + min_profit ≤ final_wsol)
        × (final_target ≡ initial_target))
unfolding enforce checked_add_u64
enforce-eq-ok initial_wsol final_wsol min_profit initial_target final_target = ground arith

-- The balance check returns exactly the increase of a balance that increased.
pub checked_increase-eq-ok :
    (before after delta : ℕ)
    → (checked_increase before after ≡ ok delta) ↔ ((0 < delta) × (after ≡ before + delta))
unfolding checked_increase checked_sub
checked_increase-eq-ok before after delta = ground arith

-- The output required of the second leg is exact: a gain of at least that much is the same as a
-- positive gain after which the final balance holds the initial one and the minimum profit.
pub required_second_leg_out-exact :
    (initial_wsol before min_profit : ℕ) {required : ℕ} (gain : ℕ)
    → required_second_leg_out initial_wsol before min_profit ≡ ok required
    → (required ≤ gain) ↔ ((0 < gain) × (initial_wsol + min_profit ≤ before + gain))
unfolding required_second_leg_out checked_add_u64
required_second_leg_out-exact initial_wsol before min_profit gain h = ground arith
