-- ===== src/Adapters/Encode.antt =====
-- The encoding of integers in instruction data, and the flags of an instruction's accounts.
use native.Mathlib.Nat.{pow-suc}
use sol_arb_executor.Prelude.{
  ℕ, zero, suc, ◌*◌, ◌/◌, ◌%◌, ◌^◌, ◌<◌, ◌≡◌, arith, List, [], ◌∷◌, Bool, true, false,
}
use sol_arb_executor.Accounts.Types.{AccountInfo}
use sol_arb_executor.Accounts.Bytes.{from_le}
use sol_arb_executor.Validate.Platform.{AccountMeta}

-- The first `n` bytes of `to_le_bytes`.
unfoldable pub to_le : ℕ → ℕ → List ℕ
to_le zero value = []
to_le (suc n) value = value % 256 ∷ to_le n (value / 256)

-- `AccountMeta::new(*account.key, is_signer)`.
abbrev pub new_meta : AccountInfo → Bool → AccountMeta
new_meta account is_signer = record {
  pubkey = account.key;
  is_signer = is_signer;
  is_writable = true;
}

-- `AccountMeta::new_readonly(*account.key, is_signer)`.
abbrev pub new_readonly : AccountInfo → Bool → AccountMeta
new_readonly account is_signer = record {
  pubkey = account.key;
  is_signer = is_signer;
  is_writable = false;
}

below : (v m : ℕ) → v < 256 * m → v / 256 < m
below v m h = omega arith

smaller : (n v : ℕ) → v < 256 ^ suc n → v < 256 * 256 ^ n
smaller n v h = omega (arith, pow-suc 256 n)

pub from_le-to_le : (n v : ℕ) → v < 256 ^ n → from_le (to_le n v) ≡ v
unfolding from_le to_le
from_le-to_le zero v h = ground arith
from_le-to_le (suc n) v h =
    omega (arith, from_le-to_le n (v / 256) (below v (256 ^ n) (smaller n v h)))
