-- ===== src/Handlers.antt =====
-- The instructions of the program: programs/sol-arb-executor/src/instructions and lib.rs, with the
-- platform as a parameter.
pub mod Context
pub mod Market
pub mod Select
pub mod Direction
pub mod Run
pub mod Entry
mod Sample
mod Tests
