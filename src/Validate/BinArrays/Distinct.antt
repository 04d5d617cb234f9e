-- ===== src/Validate/BinArrays/Distinct.antt =====
-- What account_validation.rs accepts as the bin arrays of an instruction.
use mathlib.Core.Path.{subst}
use mathlib.Core.Logic.Or
use mathlib.Core.HLevel.{⊥_prop}
use mathlib.Core.List.{
  Nodup, Nodup-nil, Nodup-cons, Mem, not-mem-nil, mem-cons, mem-append_left, mem-append_right,
  mem-cons_self,
}
use sol_arb_executor.Prelude.{
  ℕ, ◌≤◌, ◌<◌, ◌≡◌, ◌≢◌, ◌++◌, ap, sym, ◌∙◌, List, [], ◌∷◌, Bool, true, false, not, ◌&&◌, none,
  some, length, ltb, leb, ltb→lt, leb→le, arith, Option,
}
use sol_arb_executor.Prelude.Int.{ℤ, ◌==ℤ◌}
use sol_arb_executor.Errors.{ok, require-eq-ok, require->>-eq-ok, >>-eq-ok, >>=-eq-ok, ok-injective}
use sol_arb_executor.Accounts.Types.{AccountInfo}
use sol_arb_executor.Accounts.Bytes.{discriminator_len}
use sol_arb_executor.Validate.Constants.{meteora_dlmm_program_id, meteora_bin_array_discriminator}
use sol_arb_executor.Validate.Layout.{
  slice, slice_is, same_bytes-eq, require_keys_eq-eq, require_keys_eq->>-eq-ok, read_pubkey,
  validate_bin_array_data, &&_both,
}
use sol_arb_executor.Validate.BinArrays.{
  validate_bin_array_count, array_index, differs_from, validate_bin_array, validate_each,
  validate_bin_arrays,
}

-- An account of the DLMM program that is writable, does not sign, and names its pair.
pub record IsBinArray (lb_pair : List ℕ) (a : AccountInfo) : Type 0 where
  pub owned : a.owner ≡ meteora_dlmm_program_id
  pub writable : a.is_writable ≡ true
  pub unsigned : a.is_signer ≡ false
  pub tagged : slice discriminator_len a.data_bytes 0 ≡ some meteora_bin_array_discriminator
  pub of_pair : read_pubkey a.data_bytes 24 ≡ ok lb_pair

abbrev pub AreBinArrays : List ℕ → List AccountInfo → Type 0
AreBinArrays lb_pair [] = Unit {0}
AreBinArrays lb_pair (a ∷ rest) = IsBinArray lb_pair a × AreBinArrays lb_pair rest

-- The indices of the accounts, in order.
abbrev pub Indexed : List AccountInfo → List ℤ → Type 0
Indexed [] [] = Unit {0}
Indexed [] (i ∷ is) = ⊥
Indexed (a ∷ rest) [] = ⊥
Indexed (a ∷ rest) (i ∷ is) = (array_index a.data_bytes ≡ ok i) × Indexed rest is

Indexed-snoc :
    (accounts : List AccountInfo) (is : List ℤ) (a : AccountInfo) (i : ℤ)
    → Indexed accounts is
    → array_index a.data_bytes ≡ ok i
    → Indexed (accounts ++ a ∷ []) (is ++ i ∷ [])
Indexed-snoc [] [] a i h at = (at, tt)
Indexed-snoc [] (j ∷ is) a i h at = elim h [ ]
Indexed-snoc (b ∷ rest) [] a i h at = elim h [ ]
Indexed-snoc (b ∷ rest) (j ∷ is) a i h at = (h.0, Indexed-snoc rest is a i h.1 at)

differs : (i j : ℤ) → not (i ==ℤ j) ≡ true → i ≢ j
differs i j h = ground arith

differs_from-not_mem :
    (i : ℤ) (previous : List AccountInfo) (is : List ℤ)
    → Indexed previous is
    → differs_from i previous ≡ ok tt
    → ¬ Mem i is
unfolding differs_from
differs_from-not_mem i [] [] at h = not-mem-nil
differs_from-not_mem i [] (j ∷ is) at h = elim at [ ]
differs_from-not_mem i (a ∷ rest) [] at h = elim at [ ]
differs_from-not_mem i (a ∷ rest) (j ∷ is) at h =
    let (before, index, h1) = >>=-eq-ok (array_index a.data_bytes) _ h in
    let (other, rest_differs) = require->>-eq-ok (not (i ==ℤ before)) _ _ h1 in
    let same = ok-injective (sym index ∙ at.0) in
    let apart = differs i before other in
    let ih = differs_from-not_mem i rest is at.1 rest_differs in
    λ m. Or.elim ⊥_prop (mem-cons.0 m) (λ e. apart (e ∙ sym same)) ih

slice_is-eq :
    (o : Option (List ℕ)) (expected : List ℕ) → slice_is o expected ≡ true → o ≡ some expected
slice_is-eq none expected h = cc
slice_is-eq (some actual) expected h = ap some (same_bytes-eq actual expected h)

not-true : (b : Bool) → not b ≡ true → b ≡ false
not-true b h = ground arith

validate_bin_array-IsBinArray :
    (lb_pair : List ℕ) (previous : List AccountInfo) (a : AccountInfo)
    → validate_bin_array lb_pair previous a ≡ ok tt
    → IsBinArray lb_pair a
      × (i : ℤ) × (array_index a.data_bytes ≡ ok i)
      × (differs_from i previous ≡ ok tt)
unfolding validate_bin_array validate_bin_array_data
validate_bin_array-IsBinArray lb_pair previous a h =
    let (owned, h1) = require_keys_eq->>-eq-ok a.owner meteora_dlmm_program_id _ _ h in
    let (flags, h2) = require->>-eq-ok (a.is_writable && not a.is_signer) _ _ h1 in
    let (content, h3) = >>-eq-ok (validate_bin_array_data a.data_bytes lb_pair) _ h2 in
    let (i, at, h4) = >>=-eq-ok (array_index a.data_bytes) _ h3 in
    let (long, c1) = require->>-eq-ok (leb 56 (length a.data_bytes)) _ _ content in
    let (tag, c2) =
      require->>-eq-ok
        (slice_is (slice discriminator_len a.data_bytes 0) meteora_bin_array_discriminator) _ _
        c1 in
    let (pair, named, c3) = >>=-eq-ok (read_pubkey a.data_bytes 24) _ c2 in
    let same = require_keys_eq-eq pair lb_pair _ c3 in
    let (writable, unsigned) = &&_both a.is_writable (not a.is_signer) flags in
    (
      record {
        owned = owned;
        writable = writable;
        unsigned = not-true a.is_signer unsigned;
        tagged = slice_is-eq _ _ tag;
        of_pair = subst (λ k. read_pubkey a.data_bytes 24 ≡ ok k) same named;
      },
      i,
      at,
      h4,
    )

validate_each-AreBinArrays :
    (lb_pair : List ℕ) (previous : List AccountInfo) (ps : List ℤ) (accounts : List AccountInfo)
    → Indexed previous ps
    → validate_each lb_pair previous accounts ≡ ok tt
    → AreBinArrays lb_pair accounts
      × (is : List ℤ) × Indexed accounts is
      × Nodup is
      × ((j : ℤ) → Mem j is → ¬ Mem j ps)
unfolding validate_each
validate_each-AreBinArrays lb_pair previous ps [] at h =
    (tt, [], tt, Nodup-nil, λ j m. elim (not-mem-nil m) [ ])
validate_each-AreBinArrays lb_pair previous ps (a ∷ rest) at h =
    let (one, h1) = >>-eq-ok (validate_bin_array lb_pair previous a) _ h in
    let (array, i, index, differ) = validate_bin_array-IsBinArray lb_pair previous a one in
    let (arrays, is, indexed, distinct, apart) =
      validate_each-AreBinArrays lb_pair (previous ++ a ∷ []) (ps ++ i ∷ []) rest
        (Indexed-snoc previous ps a i at index) h1 in
    (
      (array, arrays),
      i ∷ is,
      (index, indexed),
      Nodup-cons.1 (λ m. apart i m (mem-append_right ps mem-cons_self), distinct),
      λ j m before.
          Or.elim ⊥_prop (mem-cons.0 m)
            (λ e. differs_from-not_mem i previous ps at differ (subst (λ k. Mem k ps) e before))
            (λ later. apart j later (mem-append_left _ before)),
    )

-- A set of bin arrays that is accepted has one to eight accounts, each of them a writable account
-- of the DLMM program that does not sign, holds a bin array and names the pair, and no two of them
-- have the same array index.
pub validate_bin_arrays-AreBinArrays :
    (accounts : List AccountInfo) (lb_pair : List ℕ)
    → validate_bin_arrays accounts lb_pair ≡ ok tt
    → (0 < length accounts)
      × (length accounts ≤ 8)
      × AreBinArrays lb_pair accounts
      × (is : List ℤ) × Indexed accounts is
      × Nodup is
unfolding validate_bin_arrays validate_bin_array_count
validate_bin_arrays-AreBinArrays accounts lb_pair h =
    let (count, h1) = >>-eq-ok (validate_bin_array_count (length accounts)) _ h in
    let (some_one, few) = require->>-eq-ok (ltb 0 (length accounts)) _ _ count in
    let (arrays, is, indexed, distinct, _) =
      validate_each-AreBinArrays lb_pair [] [] accounts tt h1 in
    (
      ltb→lt _ _ some_one,
      leb→le _ _ (require-eq-ok (leb (length accounts) 8) _ few),
      arrays,
      is,
      indexed,
      distinct,
    )
