-- ===== src/Route/Checks.antt =====
-- instructions/post_trade_checks.rs and utils/balance.rs.
pub mod Exact
use sol_arb_executor.Prelude.{ℕ, ◌-◌, max, ltb, leb, ◌==◌}
use sol_arb_executor.Errors.{
  ArbError, invalid_amount, arithmetic_overflow, profit_too_low, target_balance_not_restored,
  balance_did_not_increase_as_expected, Result, ok, err, ◌>>=◌, ◌>>◌, require, ok_or,
}
use sol_arb_executor.Word.{checked_sub, checked_add_u64}

unfoldable pub validate_args : ℕ → ℕ → Result ArbError (Unit {0})
validate_args wsol_amount_in min_profit_lamports = do
  require (ltb 0 wsol_amount_in) invalid_amount
  require (ltb 0 min_profit_lamports) invalid_amount

-- The subtraction saturates.
unfoldable pub required_second_leg_out : ℕ → ℕ → ℕ → Result ArbError ℕ
required_second_leg_out initial_wsol wsol_before_second_leg min_profit_lamports = do
  required_final_wsol ← ok_or (checked_add_u64 initial_wsol min_profit_lamports) arithmetic_overflow
  ok (max (required_final_wsol - wsol_before_second_leg) 1)

unfoldable pub enforce : ℕ → ℕ → ℕ → ℕ → ℕ → Result ArbError (Unit {0})
enforce initial_wsol final_wsol min_profit_lamports initial_target final_target = do
  required_final_wsol ← ok_or (checked_add_u64 initial_wsol min_profit_lamports) arithmetic_overflow
  require (leb required_final_wsol final_wsol) profit_too_low
  require (final_target == initial_target) target_balance_not_restored

unfoldable pub checked_increase : ℕ → ℕ → Result ArbError ℕ
checked_increase before after = do
  delta ← ok_or (checked_sub after before) balance_did_not_increase_as_expected
  require (ltb 0 delta) balance_did_not_increase_as_expected
  ok delta
