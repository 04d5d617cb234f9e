-- ===== src/Quote.antt =====
-- programs/sol-arb-executor/src/quote/: the integer-only quote arithmetic.
pub mod Types
pub mod Basic
pub mod Pump
pub mod Dlmm
mod Tests
