-- ===== src/Validate/Layout.antt =====
-- programs/sol-arb-executor/src/utils/account_validation.rs: the stable prefixes of the accounts of
-- the exchanges, and the fields of a token account.
use sol_arb_executor.Prelude.{
  ℕ, ◌+◌, List, [], ◌∷◌, Bool, true, false, ◌&&◌, Option, none, some, length, take, drop, get_elem?,
  leb, ◌==◌, ==_iff, if◌then◌else◌, ◌≡◌, refl,
}
use sol_arb_executor.Errors.{
  ArbError, invalid_account_data, invalid_bin_array, invalid_token_account_owner,
  invalid_token_mint, Result, ok, err, ◌>>=◌, ◌>>◌, require, require-eq-ok, require->>-eq-ok,
}
use sol_arb_executor.Accounts.Bytes.{discriminator_len}
use sol_arb_executor.Validate.Constants.{
  pump_pool_discriminator, meteora_lb_pair_discriminator, meteora_bin_array_discriminator,
}

-- Equality of keys and of slices.
unfoldable pub same_bytes : List ℕ → List ℕ → Bool
same_bytes [] [] = true
same_bytes [] (b ∷ bs) = false
same_bytes (a ∷ xs) [] = false
same_bytes (a ∷ xs) (b ∷ bs) = a == b && same_bytes xs bs

-- `require_keys_eq!`.
abbrev pub require_keys_eq : List ℕ → List ℕ → ArbError → Result ArbError (Unit {0})
require_keys_eq actual expected error = require (same_bytes actual expected) error

-- `data.get(offset..offset + n)`.
unfoldable pub slice : ℕ → List ℕ → ℕ → Option (List ℕ)
slice n data_bytes offset =
    if leb (offset + n) (length data_bytes) then some (take n (drop offset data_bytes)) else none

-- `slice == Some(expected)`.
abbrev pub slice_is : Option (List ℕ) → List ℕ → Bool
slice_is none expected = false
slice_is (some actual) expected = same_bytes actual expected

abbrev pub pump_is_cashback_coin_offset : ℕ
pump_is_cashback_coin_offset = 244

abbrev pub pump_required_prefix_len : ℕ
pump_required_prefix_len = 211 + 32

abbrev pub meteora_required_prefix_len : ℕ
meteora_required_prefix_len = 184 + 32

abbrev pub meteora_bin_array_required_prefix_len : ℕ
meteora_bin_array_required_prefix_len = 24 + 32

pub record PumpPoolPrefix : Type 0 where
  pub base_mint : List ℕ
  pub quote_mint : List ℕ
  pub base_vault : List ℕ
  pub quote_vault : List ℕ
  pub coin_creator : List ℕ
  pub is_cashback_coin : Bool

pub record MeteoraPairPrefix : Type 0 where
  pub token_x_mint : List ℕ
  pub token_y_mint : List ℕ
  pub reserve_x : List ℕ
  pub reserve_y : List ℕ

unfoldable pub read_pubkey : List ℕ → ℕ → Result ArbError (List ℕ)
read_pubkey data_bytes offset = elim (slice 32 data_bytes offset) [
  | none ↦ err invalid_account_data
  | some key ↦ ok key
]

unfoldable pub check_discriminator : List ℕ → List ℕ → Result ArbError (Unit {0})
check_discriminator data_bytes expected =
    require (slice_is (slice discriminator_len data_bytes 0) expected) invalid_account_data

-- The match on the byte of the flag, which a legacy pool does not have.
unfoldable pub cashback_flag : Option ℕ → Result ArbError Bool
cashback_flag none = ok false
cashback_flag (some flag) =
    if flag == 0 then ok false else (if flag == 1 then ok true else err invalid_account_data)

unfoldable pub parse_pump_pool : List ℕ → Result ArbError PumpPoolPrefix
parse_pump_pool data_bytes = do
  require (leb pump_required_prefix_len (length data_bytes)) invalid_account_data
  check_discriminator data_bytes pump_pool_discriminator
  is_cashback_coin ← cashback_flag (get_elem? data_bytes pump_is_cashback_coin_offset)
  base_mint ← read_pubkey data_bytes 43
  quote_mint ← read_pubkey data_bytes 75
  base_vault ← read_pubkey data_bytes 139
  quote_vault ← read_pubkey data_bytes 171
  coin_creator ← read_pubkey data_bytes 211
  ok (record {
    base_mint = base_mint;
    quote_mint = quote_mint;
    base_vault = base_vault;
    quote_vault = quote_vault;
    coin_creator = coin_creator;
    is_cashback_coin = is_cashback_coin;
  })

unfoldable pub parse_meteora_pair : List ℕ → Result ArbError MeteoraPairPrefix
parse_meteora_pair data_bytes = do
  require (leb meteora_required_prefix_len (length data_bytes)) invalid_account_data
  check_discriminator data_bytes meteora_lb_pair_discriminator
  token_x_mint ← read_pubkey data_bytes 88
  token_y_mint ← read_pubkey data_bytes 120
  reserve_x ← read_pubkey data_bytes 152
  reserve_y ← read_pubkey data_bytes 184
  ok (record {
    token_x_mint = token_x_mint;
    token_y_mint = token_y_mint;
    reserve_x = reserve_x;
    reserve_y = reserve_y;
  })

unfoldable pub validate_bin_array_data : List ℕ → List ℕ → Result ArbError (Unit {0})
validate_bin_array_data data_bytes expected_lb_pair = do
  require (leb meteora_bin_array_required_prefix_len (length data_bytes)) invalid_bin_array
  require (slice_is (slice discriminator_len data_bytes 0) meteora_bin_array_discriminator)
      invalid_bin_array
  lb_pair ← read_pubkey data_bytes 24
  require_keys_eq lb_pair expected_lb_pair invalid_bin_array

unfoldable pub validate_user_token_fields :
    List ℕ → List ℕ → List ℕ → List ℕ → Result ArbError (Unit {0})
validate_user_token_fields actual_owner actual_mint expected_owner expected_mint = do
  require_keys_eq actual_owner expected_owner invalid_token_account_owner
  require_keys_eq actual_mint expected_mint invalid_token_mint

pub &&_both : (a b : Bool) → (a && b) ≡ true → (a ≡ true) × (b ≡ true)
&&_both true b h = (refl, h)
&&_both false b h = cc

pub same_bytes-eq : (a b : List ℕ) → same_bytes a b ≡ true → a ≡ b
unfolding same_bytes
same_bytes-eq [] [] h = refl
same_bytes-eq [] (b ∷ bs) h = cc
same_bytes-eq (a ∷ xs) [] h = cc
same_bytes-eq (a ∷ xs) (b ∷ bs) h =
    let (same, rest) = &&_both (a == b) (same_bytes xs bs) h in
    let first = (==_iff a b).0 same in let others = same_bytes-eq xs bs rest in cc

pub same_bytes_refl : (a : List ℕ) → same_bytes a a ≡ true
unfolding same_bytes
same_bytes_refl [] = refl
same_bytes_refl (a ∷ xs) = rw ((==_iff a a).1 refl) (same_bytes_refl xs)

-- Inversion of a `require_keys_eq!` before the rest.
pub require_keys_eq->>-eq-ok :
    {B : Type 0} (a b : List ℕ) (e : ArbError) (rest : Result ArbError B) {x : B}
    → (require_keys_eq a b e >> rest) ≡ ok x
    → (a ≡ b) × (rest ≡ ok x)
require_keys_eq->>-eq-ok a b e rest h =
    let (same, after) = require->>-eq-ok (same_bytes a b) e rest h in
    (same_bytes-eq a b same, after)

pub require_keys_eq-eq : (a b : List ℕ) (e : ArbError) → require_keys_eq a b e ≡ ok tt → a ≡ b
require_keys_eq-eq a b e h = same_bytes-eq a b (require-eq-ok (same_bytes a b) e h)
