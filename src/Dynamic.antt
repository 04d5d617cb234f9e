-- ===== src/Dynamic.antt =====
-- programs/sol-arb-executor/src/instructions/dynamic_amount.rs: the choice of direction and amount.
pub mod Types
pub mod Curve
pub mod Candidates
pub mod Evaluate
pub mod Decide
pub mod Boundary
pub mod Normalized
pub mod Search
pub mod Forward
pub mod Build
mod Tests
