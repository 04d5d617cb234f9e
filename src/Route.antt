-- ===== src/Route.antt =====
-- The execution of a route: programs/sol-arb-executor/src/instructions/{post_trade_checks.rs,
-- pump_to_meteora.rs, meteora_to_pump.rs}, utils/balance.rs and the choice in best_direction.rs.
pub mod Checks
pub mod Direction
pub mod Events
pub mod Execute
mod Tests
