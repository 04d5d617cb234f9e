-- ===== src/Validate.antt =====
-- The checks of accounts: programs/sol-arb-executor/src/utils/account_validation.rs,
-- utils/token_extensions.rs and constants.rs.
pub mod Constants
pub mod Platform
pub mod Layout
pub mod BinArrays
pub mod Tokens
