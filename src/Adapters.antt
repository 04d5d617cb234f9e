-- ===== src/Adapters.antt =====
-- The adapters of the exchanges, which assemble instructions for the other programs:
-- programs/sol-arb-executor/src/adapters/pump_swap.rs and meteora_dlmm.rs.
pub mod Encode
pub mod Sent
pub mod PumpSwap
pub mod MeteoraDlmm
