-- ===== src/Adapters/Sent.antt =====
-- What a call of another program carries: the instruction, and the accounts that are passed with it.
use sol_arb_executor.Prelude.{ℕ, ◌≡◌, List, [], ◌∷◌, map, if◌then◌else◌}
use sol_arb_executor.Errors.{ok}
use sol_arb_executor.Accounts.Types.{AccountInfo}
use sol_arb_executor.Accounts.Bytes.{bytes, read_u64}
use sol_arb_executor.Validate.Platform.{AccountMeta, Instruction, Platform}

-- The keys that must sign, in order.
unfoldable pub signers : List AccountMeta → List (List ℕ)
signers [] = []
signers (meta ∷ metas) = if meta.is_signer then meta.pubkey ∷ signers metas else signers metas

module _ {Ledger : Type 0} (p : Platform Ledger) where
  -- A ledger is the result of one instruction, for one program and signed by one trader, whose data
  -- reads back as the discriminator and the two amounts, and whose accounts are, one by one, those
  -- that were passed.
  pub record Sent (program trader discriminator : List ℕ) (amount min_out : ℕ)
      (before after : Ledger) : Type 0 where
    pub instruction : Instruction
    pub infos : List AccountInfo
    pub invoked : p.invoke instruction infos before ≡ ok after
    pub to_program : instruction.program_id ≡ program
    pub tag : bytes 8 instruction.instruction_data 0 ≡ ok discriminator
    pub amount_read : read_u64 instruction.instruction_data 8 ≡ ok amount
    pub min_out_read : read_u64 instruction.instruction_data 16 ≡ ok min_out
    pub passed : map (λ m. m.pubkey) instruction.accounts ≡ map (λ a. a.key) infos
    pub signed : signers instruction.accounts ≡ trader ∷ []
