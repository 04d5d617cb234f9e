-- ===== src/Adapters/MeteoraDlmm/Swap.antt =====
-- What the swap of meteora_dlmm.rs sends.
use sol_arb_executor.Prelude.{
  ℕ, ◌<◌, ◌≡◌, refl, ap, List, [], ◌∷◌, ◌++◌, map, false, Bool-cases, inl, inr,
}
use sol_arb_executor.Errors.{ok, >>=-eq-ok, >>-eq-ok, require->>-eq-ok}
use sol_arb_executor.Word.{u64_size}
use sol_arb_executor.Accounts.Types.{AccountInfo}
use sol_arb_executor.Accounts.Bytes.{bytes, read_u64, read_unsigned, from_le}
use sol_arb_executor.Validate.Constants.{meteora_dlmm_program_id, meteora_swap2_discriminator}
use sol_arb_executor.Validate.Platform.{AccountMeta, Platform}
use sol_arb_executor.Validate.Layout.{
  same_bytes, MeteoraPairPrefix, parse_meteora_pair, require_keys_eq->>-eq-ok,
}
use sol_arb_executor.Validate.BinArrays.{validate_bin_arrays}
use sol_arb_executor.Adapters.Encode.{to_le, from_le-to_le, new_meta}
use sol_arb_executor.Adapters.Sent.{signers, Sent}
use sol_arb_executor.Adapters.MeteoraDlmm.{
  MeteoraAccounts, validate_optional, validate, optional_meta, swap2_metas, swap2_infos, swap2_data,
  swap2,
}

-- The program is the real one, and the mints and reserves are those that the pair names, which
-- Meteora owns.
pub record MatchesPair (a : MeteoraAccounts) : Type 0 where
  pub pair_prefix : MeteoraPairPrefix
  pub program_key : a.program.key ≡ meteora_dlmm_program_id
  pub pair_owner : a.lb_pair.owner ≡ meteora_dlmm_program_id
  pub parsed : parse_meteora_pair a.lb_pair.data_bytes ≡ ok pair_prefix
  pub token_x_key : pair_prefix.token_x_mint ≡ a.token_x_mint.key
  pub token_y_key : pair_prefix.token_y_mint ≡ a.token_y_mint.key
  pub reserve_x_key : pair_prefix.reserve_x ≡ a.reserve_x.key
  pub reserve_y_key : pair_prefix.reserve_y ≡ a.reserve_y.key

pub validate-MatchesPair :
    (a : MeteoraAccounts) (bin_arrays : List AccountInfo)
    → validate a bin_arrays ≡ ok tt
    → MatchesPair a × (validate_bin_arrays bin_arrays a.lb_pair.key ≡ ok tt)
unfolding validate
validate-MatchesPair a bin_arrays h =
    let (program, h1) = require_keys_eq->>-eq-ok a.program.key meteora_dlmm_program_id _ _ h in
    let (_, h2) = require->>-eq-ok a.program.executable _ _ h1 in
    let (owner, h3) = require_keys_eq->>-eq-ok a.lb_pair.owner meteora_dlmm_program_id _ _ h2 in
    let (pair, parsed, h4) = >>=-eq-ok (parse_meteora_pair a.lb_pair.data_bytes) _ h3 in
    let (x, h5) = require_keys_eq->>-eq-ok pair.token_x_mint a.token_x_mint.key _ _ h4 in
    let (y, h6) = require_keys_eq->>-eq-ok pair.token_y_mint a.token_y_mint.key _ _ h5 in
    let (rx, h7) = require_keys_eq->>-eq-ok pair.reserve_x a.reserve_x.key _ _ h6 in
    let (ry, h8) = require_keys_eq->>-eq-ok pair.reserve_y a.reserve_y.key _ _ h7 in
    let (_, h9) = >>-eq-ok (validate_optional a.bin_array_bitmap_extension) _ h8 in
    let (_, h10) = >>-eq-ok (validate_optional a.host_fee_in) _ h9 in
    (
      record {
        pair_prefix = pair;
        program_key = program;
        pair_owner = owner;
        parsed = parsed;
        token_x_key = x;
        token_y_key = y;
        reserve_x_key = rx;
        reserve_y_key = ry;
      },
      h10,
    )

abbrev array_metas : List AccountInfo → List AccountMeta
array_metas bin_arrays = map (λ account. new_meta account false) bin_arrays

arrays-passed :
    (bin_arrays : List AccountInfo)
    → map (λ m. m.pubkey) (array_metas bin_arrays) ≡ map (λ a. a.key) bin_arrays
arrays-passed [] = refl
arrays-passed (a ∷ rest) = ap (λ keys. a.key ∷ keys) (arrays-passed rest)

arrays-signers : (bin_arrays : List AccountInfo) → signers (array_metas bin_arrays) ≡ []
unfolding signers
arrays-signers [] = refl
arrays-signers (a ∷ rest) = arrays-signers rest

-- The accounts that may be absent.
optional_meta-key : (a : AccountInfo) → (optional_meta a).pubkey ≡ a.key
unfolding optional_meta
optional_meta-key a = elim (Bool-cases (same_bytes a.key meteora_dlmm_program_id)) [
  | inl b ↦ rw b refl
  | inr b ↦ rw b refl
]

optional_meta-unsigned : (a : AccountInfo) → (optional_meta a).is_signer ≡ false
unfolding optional_meta
optional_meta-unsigned a = elim (Bool-cases (same_bytes a.key meteora_dlmm_program_id)) [
  | inl b ↦ rw b refl
  | inr b ↦ rw b refl
]

module _ (accounts : MeteoraAccounts) (bin_arrays : List AccountInfo) where
  swap2-passed :
      map (λ m. m.pubkey) (swap2_metas accounts ++ array_metas bin_arrays)
      ≡ map (λ a. a.key) (swap2_infos accounts ++ bin_arrays)
  unfolding swap2_metas swap2_infos
  swap2-passed =
      rw
        (
          optional_meta-key accounts.bin_array_bitmap_extension,
          optional_meta-key accounts.host_fee_in,
          arrays-passed bin_arrays,
        )
        refl

  swap2-signed : signers (swap2_metas accounts ++ array_metas bin_arrays) ≡ accounts.user.key ∷ []
  unfolding swap2_metas signers
  swap2-signed =
      rw
        (
          optional_meta-unsigned accounts.bin_array_bitmap_extension,
          optional_meta-unsigned accounts.host_fee_in,
          arrays-signers bin_arrays,
        )
        refl

swap2_data-amount : (a m : ℕ) → a < u64_size → read_u64 (swap2_data a m) 8 ≡ ok a
unfolding swap2_data to_le bytes read_u64 read_unsigned from_le
swap2_data-amount a m h = ap ok (from_le-to_le 8 a h)

swap2_data-min : (a m : ℕ) → m < u64_size → read_u64 (swap2_data a m) 16 ≡ ok m
unfolding swap2_data to_le bytes read_u64 read_unsigned from_le
swap2_data-min a m h = ap ok (from_le-to_le 8 m h)

swap2_data-tag : (a m : ℕ) → bytes 8 (swap2_data a m) 0 ≡ ok meteora_swap2_discriminator
unfolding swap2_data to_le bytes
swap2_data-tag a m = refl

-- A swap with two u64 amounts that succeeds was made for accounts that match the pair and with bin
-- arrays that are accepted, and sent Meteora one instruction to swap, which only the user signs and
-- whose data reads back as the amount and the minimum, together with exactly the accounts that it
-- names, in order.
pub swap2-Sent :
    {Ledger : Type 0} (p : Platform Ledger) (accounts : MeteoraAccounts)
    (bin_arrays : List AccountInfo) (a m : ℕ) {before after : Ledger}
    → a < u64_size
    → m < u64_size
    → swap2 p accounts bin_arrays a m before ≡ ok after
    → MatchesPair accounts
      × (validate_bin_arrays bin_arrays accounts.lb_pair.key ≡ ok tt)
      × Sent p meteora_dlmm_program_id accounts.user.key meteora_swap2_discriminator a m before
          after
unfolding swap2
swap2-Sent p accounts bin_arrays a m small_amount small_min h =
    let (valid, invoked) = >>-eq-ok (validate accounts bin_arrays) _ h in
    let (matches, arrays) = validate-MatchesPair accounts bin_arrays valid in
    (
      matches,
      arrays,
      record {
        instruction = record {
          program_id = meteora_dlmm_program_id;
          accounts = swap2_metas accounts ++ array_metas bin_arrays;
          instruction_data = swap2_data a m;
        };
        infos = swap2_infos accounts ++ bin_arrays;
        invoked = invoked;
        to_program = refl;
        tag = swap2_data-tag a m;
        amount_read = swap2_data-amount a m small_amount;
        min_out_read = swap2_data-min a m small_min;
        passed = swap2-passed accounts bin_arrays;
        signed = swap2-signed accounts bin_arrays;
      },
    )
