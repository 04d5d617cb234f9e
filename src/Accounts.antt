-- ===== src/Accounts.antt =====
-- programs/sol-arb-executor/src/quote/accounts.rs: the on-chain account layouts and what the quotes
-- read from them.
pub mod Types
pub mod Bytes
pub mod Pump
pub mod Pair
pub mod Bins
pub mod Volatility
mod Tests
