-- ===== src/Validate/Platform.antt =====
-- What the program takes from Solana and its libraries: instructions for other programs, and, as
-- parameters, the runtime that carries them out and the libraries that the checks call.
use sol_arb_executor.Prelude.{ℕ, List, Bool, Option}
use sol_arb_executor.Prelude.Int.{ℤ}
use sol_arb_executor.Errors.{ArbError, Result}
use sol_arb_executor.Accounts.Types.{AccountInfo}

-- `AccountMeta`.
pub record AccountMeta : Type 0 where
  pub pubkey : List ℕ
  pub is_signer : Bool
  pub is_writable : Bool

-- `Instruction`.
pub record Instruction : Type 0 where
  pub program_id : List ℕ
  pub accounts : List AccountMeta
  pub instruction_data : List ℕ

-- `refresh` is an account as it stands on a ledger, `reload` the amount of the token account at a
-- key, `unix_timestamp` is of `Clock::get()`. `extension_types` is `StateWithExtensions::unpack`
-- with `get_extension_types`, without a value when one of them fails; an extension type is its number.
pub record Platform (Ledger : Type 0) : Type 0 where
  pub refresh : Ledger → AccountInfo → AccountInfo
  pub reload : Ledger → List ℕ → ℕ
  pub unix_timestamp : Ledger → Result ArbError ℤ
  pub invoke : Instruction → List AccountInfo → Ledger → Result ArbError Ledger
  pub find_program_address : List (List ℕ) → List ℕ → List ℕ
  pub associated_token_program_id : List ℕ
  pub legacy_token_program_id : List ℕ
  pub token_2022_program_id : List ℕ
  pub extension_types : List ℕ → Option (List ℕ)
  pub metadata_pointer : ℕ
  pub token_metadata : ℕ
