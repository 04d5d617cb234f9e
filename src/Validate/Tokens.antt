-- ===== src/Validate/Tokens.antt =====
-- programs/sol-arb-executor/src/utils/token_extensions.rs: the token programs and the extensions of
-- a mint that a route allows.
use sol_arb_executor.Prelude.{ℕ, List, [], ◌∷◌, Bool, ◌||◌, none, some, ◌==◌, if◌then◌else◌}
use sol_arb_executor.Errors.{
  ArbError, unsupported_token_program, unsupported_token_extension, invalid_account_data, Result,
  ok, err, ◌>>◌, require,
}
use sol_arb_executor.Accounts.Types.{AccountInfo}
use sol_arb_executor.Validate.Platform.{Platform}
use sol_arb_executor.Validate.Layout.{same_bytes, require_keys_eq}

module _ {Ledger : Type 0} (p : Platform Ledger) where
  unfoldable pub is_supported_token_program : List ℕ → Bool
  is_supported_token_program program =
      same_bytes program p.legacy_token_program_id || same_bytes program p.token_2022_program_id

  unfoldable pub validate_route_token_programs :
      AccountInfo
      → AccountInfo
      → AccountInfo
      → AccountInfo
      → List ℕ
      → List ℕ
      → Result ArbError (Unit {0})
  validate_route_token_programs wsol_mint target_mint user_wsol user_target wsol_program
        target_program =
      do
        require_keys_eq wsol_program p.legacy_token_program_id unsupported_token_program
        require (is_supported_token_program target_program) unsupported_token_program
        require_keys_eq wsol_mint.owner wsol_program unsupported_token_program
        require_keys_eq user_wsol.owner wsol_program unsupported_token_program
        require_keys_eq target_mint.owner target_program unsupported_token_program
        require_keys_eq user_target.owner target_program unsupported_token_program

  -- The test of the loop over the extensions.
  unfoldable pub is_allowed_extension : ℕ → Bool
  is_allowed_extension extension = extension == p.metadata_pointer || extension == p.token_metadata

  unfoldable pub check_extensions : List ℕ → Result ArbError (Unit {0})
  check_extensions [] = ok tt
  check_extensions (extension ∷ extensions) = do
    require (is_allowed_extension extension) unsupported_token_extension
    check_extensions extensions

  unfoldable pub validate_supported_target_mint : AccountInfo → Result ArbError (Unit {0})
  validate_supported_target_mint target_mint =
      if same_bytes target_mint.owner p.legacy_token_program_id then ok tt else (do
        require_keys_eq target_mint.owner p.token_2022_program_id unsupported_token_program
        elim (p.extension_types target_mint.data_bytes) [
          | none ↦ err invalid_account_data
          | some extensions ↦ check_extensions extensions
        ])
