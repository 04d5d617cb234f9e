-- ===== src/Lib.antt =====
-- A verification library for the arbitrage executor under programs/sol-arb-executor/src, a Solana
-- program that buys a token on one exchange and sells it on another in a single instruction.
--
-- The parts and their files:
-- * Quote models quote/math.rs. Quote.Pump holds the constant-product quotes with their rounded-up
--   fees, Quote.Dlmm the quotes over the bins of a Meteora pair. A Rust `Result` is `Result` of
--   Errors, its `?` a bind; each function has the Rust name. The pieces of a long function are
--   helpers named for what they compute (`effective_quote_for`, `fill_bin`).
-- * Accounts models quote/accounts.rs: the byte readers, the parsers, the choice of the fee tier,
--   the bitmaps and the volatility updates. An account's data is a list of bytes.
-- * Snapshot models the rest of quote/accounts.rs, which runs off the chain: the bin arrays parsed
--   whole or near the active bin, and the quotes on them.
-- * Probe models test-programs/quote-probe/src/amount_search.rs, which tries a few amounts on such a
--   snapshot.
-- * Dynamic models instructions/dynamic_amount.rs. `build_curve` walks over the bins and pushes
--   segments onto a curve (Dynamic.Build), `DlmmCurve::quote` looks an amount up by binary search
--   (Dynamic.Curve), candidates are collected and evaluated (Dynamic.Candidates, Dynamic.Evaluate),
--   the forward direction is bounded by a binary search (Dynamic.Forward) and sampled at segment
--   boundaries (Dynamic.Boundary), interior amounts come from square roots (Dynamic.Normalized), the
--   two searches gather them (Dynamic.Search), and the directions are compared (Dynamic.Decide).
-- * Route models instructions/post_trade_checks.rs and utils/balance.rs (Route.Checks), the
--   functions `execute` of pump_to_meteora.rs and meteora_to_pump.rs (Route.Execute), events.rs
--   (Route.Events), and the choice of a direction in best_direction.rs (Route.Direction).
-- * Validate models utils/account_validation.rs, utils/token_extensions.rs and constants.rs: the
--   prefixes of the accounts (Validate.Layout), the bin arrays (Validate.BinArrays) and the token
--   programs (Validate.Tokens). Validate.Platform holds what the program takes from Solana.
-- * Adapters models adapters/pump_swap.rs (Adapters.PumpSwap: the checks; its child Invoke: the
--   instructions) and adapters/meteora_dlmm.rs (Adapters.MeteoraDlmm).
-- * Handlers models instructions/mod.rs (Handlers.Context), the reading of the market and
--   `validate_quote_accounts` (Handlers.Market), `select_dynamic` (Handlers.Select),
--   `select_direction` (Handlers.Direction), the four handlers (Handlers.Run) and lib.rs
--   (Handlers.Entry). `exchanges` of Handlers.Run fills the interface of Route.Execute with the
--   adapters.
-- * Errors holds the codes of errors.rs, Word the checked arithmetic of u64 and u128, Prelude the
--   shared names. The Tests modules hold concrete runs.
--
-- Conventions: a machine integer is a natural number (or an integer, where it is signed) and its
-- width appears where an operation checks or wraps it; a fixed array with its length is the list of
-- the entries in use; `&mut` state is passed and returned; `try_borrow_data` succeeds, since no
-- account is borrowed mutably while the program reads it. Logging with `msg!` is left out. The calls
-- of the other programs and the balances they leave are fields of `Exchanges`, so a theorem on a
-- route holds for every exchange. The runtime is the record `Platform`: the invocation of another
-- program on a ledger, an account as it stands on a ledger, the amount that a reload reads, the
-- clock, the derivation of an address, the ids of the token programs and the decoding of the
-- extensions of a mint. Theorems hold for every platform; `IsSound` names what some of them ask of
-- it. An account is read as it stands on the ledger of the call. The match on a direction in the
-- handlers is `execute` of Handlers.Run.
--
-- Bounds and fuel: a curve has at most sixteen segments and two bin arrays, as in the source. The
-- lookup `bisect` has one unit of fuel more than there are segments and each round narrows the
-- range; the search `narrow` has sixty-five units: each round halves the range of a u64, and one
-- more leaves the loop, which the flag `ended` of its result records; the square root `newton` has
-- one unit more than its estimate, which falls in every round, and gives none without fuel.
-- The loops over bins and candidates are structural.
--
-- Not modelled: the account constraints of `ExecuteRoute`, which the framework's generated code
-- checks; the diagnostic log lines of dynamic_amount.rs; what the other programs do with an
-- instruction; the other test programs and the decoding of the probe's instruction; the scripts and
-- the tests.
pub mod Prelude
pub mod Errors
pub mod Word
pub mod Quote
pub mod Accounts
pub mod Dynamic
pub mod Route
pub mod Snapshot
pub mod Probe
pub mod Validate
pub mod Adapters
pub mod Handlers
