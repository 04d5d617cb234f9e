-- ===== src/Handlers/Sample.antt =====
-- Accounts of one market, and a platform whose ledger holds the two balances of the trader.
use sol_arb_executor.Prelude.{
  ℕ, ◌+◌, ◌-◌, ◌*◌, min, List, [], ◌∷◌, ◌++◌, take, drop, length, replicate, true, false, none,
  if◌then◌else◌,
}
use sol_arb_executor.Prelude.Int.{pos}
use sol_arb_executor.Errors.{ArbError, invalid_amount, Result, ok, err}
use sol_arb_executor.Word.{u64_max}
use sol_arb_executor.Accounts.Types.{AccountInfo}
use sol_arb_executor.Accounts.Bytes.{read_u64}
use sol_arb_executor.Validate.Constants.{
  wsol_mint_key, pump_swap_program_id, pump_fee_program_id, meteora_dlmm_program_id,
  memo_program_id, pump_pool_discriminator, meteora_lb_pair_discriminator,
  meteora_bin_array_discriminator, pump_buy_exact_quote_in_discriminator,
}
use sol_arb_executor.Validate.Platform.{Platform}
use sol_arb_executor.Validate.Layout.{same_bytes, slice, slice_is}
use sol_arb_executor.Handlers.Context.{TokenAccount, ExecuteRoute}

abbrev pub key_of : ℕ → List ℕ
key_of n = n ∷ replicate 31 0

-- Bytes written over others at an offset.
abbrev pub put : ℕ → List ℕ → List ℕ → List ℕ
put offset bs data_bytes = take offset data_bytes ++ bs ++ drop (offset + length bs) data_bytes

abbrev pub target_key : List ℕ
target_key = key_of 2

-- The Pump pool of the target and WSOL.
abbrev pub pool_bytes : List ℕ
pool_bytes = put 0 pump_pool_discriminator (
    put 43 target_key
      (put 75 wsol_mint_key (put 139 (key_of 3) (put 171 (key_of 4) (replicate 261 0)))))

-- The Meteora pair, without limit orders, whose bin array 0 is initialized.
abbrev pub pair_bytes : List ℕ
pair_bytes = put 0 meteora_lb_pair_discriminator (
    put 35 (1 ∷ []) (
      put 80 (10 ∷ []) (
        put 88 target_key (
          put 120 wsol_mint_key
            (put 152 (key_of 5) (put 184 (key_of 6) (put 648 (1 ∷ []) (replicate 712 0))))))))

-- A million of a token.
abbrev million : List ℕ
million = 64 ∷ 66 ∷ 15 ∷ []

-- A bin array with one bin, of the price one and a million of each token.
abbrev pub array_bytes : ℕ → List ℕ
array_bytes index = put 0 meteora_bin_array_discriminator (
    put 8 (index ∷ [])
      (put 24 (key_of 7) (put 56 million (put 64 million (put 80 (1 ∷ []) (replicate 200 0))))))

-- The base vault holds a million, the quote vault 500 000.
abbrev base_vault_bytes : List ℕ
base_vault_bytes = put 64 million (replicate 72 0)

abbrev quote_vault_bytes : List ℕ
quote_vault_bytes = put 64 (32 ∷ 161 ∷ 7 ∷ []) (replicate 72 0)

abbrev pub account : List ℕ → List ℕ → List ℕ → AccountInfo
account key owner data_bytes = record {
  key = key;
  owner = owner;
  is_signer = false;
  is_writable = true;
  executable = false;
  data_bytes = data_bytes;
}

abbrev plain : ℕ → AccountInfo
plain n = account (key_of n) (key_of 0) []

abbrev program : List ℕ → AccountInfo
program key = record (account key (key_of 0) []) { executable = true }

abbrev pub array_account : ℕ → AccountInfo
array_account index = account (key_of (60 + index)) meteora_dlmm_program_id (array_bytes index)

abbrev pub arrays : List AccountInfo
arrays = array_account 0 ∷ array_account 1 ∷ []

-- The token program.
abbrev token_key : List ℕ
token_key = key_of 11

abbrev user_wsol_account : TokenAccount
user_wsol_account = record {
  info = account (key_of 21) token_key [];
  token_owner = key_of 1;
  mint = wsol_mint_key;
  amount = 1000;
}

abbrev user_target_account : TokenAccount
user_target_account = record {
  info = account (key_of 22) token_key [];
  token_owner = key_of 1;
  mint = target_key;
  amount = 5;
}

abbrev pub accounts : ExecuteRoute
accounts = record {
  trader = record (plain 1) { is_signer = true };
  wsol_mint = record { info = account wsol_mint_key token_key []; supply = 0 };
  target_mint = record { info = account target_key token_key []; supply = 1000 };
  user_wsol = user_wsol_account;
  user_target = user_target_account;
  wsol_token_program = program token_key;
  target_token_program = program token_key;
  system_program = plain 23;
  associated_token_program = plain 24;
  pump_program = program pump_swap_program_id;
  pump_pool = account (key_of 25) pump_swap_program_id pool_bytes;
  pump_global_config = account (key_of 26) pump_swap_program_id (replicate 321 0);
  pump_pool_base_token_account = account (key_of 3) token_key base_vault_bytes;
  pump_pool_quote_token_account = account (key_of 4) token_key quote_vault_bytes;
  pump_protocol_fee_recipient = plain 27;
  pump_protocol_fee_recipient_token_account = plain 28;
  pump_event_authority = plain 29;
  pump_coin_creator_vault_ata = plain 30;
  pump_coin_creator_vault_authority = plain 31;
  pump_global_volume_accumulator = plain 32;
  pump_user_volume_accumulator = plain 33;
  pump_user_volume_accumulator_wsol_ata = plain 34;
  pump_fee_config = account (key_of 35) pump_fee_program_id (replicate 69 0);
  pump_fee_program = program pump_fee_program_id;
  pump_pool_v2 = plain 36;
  pump_buyback_fee_recipient = plain 37;
  pump_buyback_fee_recipient_token_account = plain 38;
  meteora_program = program meteora_dlmm_program_id;
  meteora_lb_pair = account (key_of 7) meteora_dlmm_program_id pair_bytes;
  meteora_bin_array_bitmap_extension = program meteora_dlmm_program_id;
  meteora_reserve_x = plain 5;
  meteora_reserve_y = plain 6;
  meteora_oracle = plain 39;
  meteora_host_fee_in = program meteora_dlmm_program_id;
  memo_program = program memo_program_id;
  meteora_event_authority = plain 40;
}

abbrev pub Balances : Type 0
Balances = ℕ × ℕ

-- A purchase on Pump gives two of the target for each lamport; the other calls take one for each.
abbrev traded : List ℕ → Balances → Result ArbError Balances
traded content b = elim (read_u64 content 8) [
  | err _ ↦ err invalid_amount
  | ok amount ↦ ok (b.0 - amount, b.1 + amount * 2)
]

abbrev returned : List ℕ → Balances → Result ArbError Balances
returned content b = elim (read_u64 content 8) [
  | err _ ↦ err invalid_amount
  | ok amount ↦ ok (b.0 + amount, b.1 - amount)
]

abbrev pub platform : Platform Balances
platform = record {
  refresh = λ ledger a. a;
  reload = λ ledger key.
      if same_bytes key (key_of 21) then min ledger.0 u64_max else min ledger.1 u64_max;
  unix_timestamp = λ ledger. ok (pos 100);
  invoke = λ instruction infos ledger.
      if slice_is (slice 8 instruction.instruction_data 0) pump_buy_exact_quote_in_discriminator
      then traded instruction.instruction_data ledger
      else returned instruction.instruction_data ledger;
  find_program_address = λ seeds program. key_of 9;
  associated_token_program_id = key_of 12;
  legacy_token_program_id = token_key;
  token_2022_program_id = key_of 13;
  extension_types = λ data_bytes. none;
  metadata_pointer = 18;
  token_metadata = 19;
}
