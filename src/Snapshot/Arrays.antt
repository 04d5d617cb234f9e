-- ===== src/Snapshot/Arrays.antt =====
-- The bins of a parsed array against the bins that are read one at a time.
use mathlib.Core.Path.{subst}
use sol_arb_executor.Prelude.{
  ℕ, zero, suc, ◌+◌, ◌≡◌, ◌⊎◌, refl, sym, ap, ◌∙◌, List, [], ◌∷◌, Bool, true, false, Option, some,
  some-injective, find?, ◌==◌, ==_iff, inl, inr,
}
use sol_arb_executor.Prelude.Int.{ℤ, ◌==ℤ◌}
use sol_arb_executor.Errors.{ok, >>=-eq-ok, ok-injective, to_option}
use sol_arb_executor.Quote.Types.{Bin}
use sol_arb_executor.Accounts.Types.{AccountInfo}
use sol_arb_executor.Accounts.Bins.{parse_bin, parse_bin_array_index, bin_offset, parse_bin_for_id}
use sol_arb_executor.Dynamic.Build.{find_array, index_matches}
use sol_arb_executor.Snapshot.{ParsedBinArray, bins_base, parse_bins, parse_bin_array}

-- One step of `find`, with its test as a value.
find_step :
    {A : Type 0} (b : Bool) (x : A) (r : Option A) {e : A}
    → elim b [ true ↦ some x | false ↦ r ] ≡ some e
    → ((b ≡ true) × (x ≡ e)) ⊎ ((b ≡ false) × (r ≡ some e))
find_step true x r h = inl (refl, some-injective h)
find_step false x r h = inr (refl, h)

find_here :
    {A : Type 0} {b : Bool} (x : A) (r : Option A)
    → b ≡ true
    → elim b [ true ↦ some x | false ↦ r ] ≡ some x
find_here x r h = rw h refl

find_later :
    {A : Type 0} {b : Bool} (x : A) (r : Option A) {e : A}
    → b ≡ false
    → r ≡ some e
    → elim b [ true ↦ some x | false ↦ r ] ≡ some e
find_later x r h k = rw h k

-- The entry of an offset is the bin that is parsed there.
parse_bins-find :
    (n i : ℕ) (data_bytes : List ℕ) (k : ℕ) {bins : List (ℕ × Bin)} {e : ℕ × Bin}
    → parse_bins n i data_bytes ≡ ok bins
    → find? (λ e. e.0 == k) bins ≡ some e
    → parse_bin data_bytes bins_base k ≡ ok e.1
unfolding parse_bins find?
parse_bins-find zero i data_bytes k {bins} {e} h f =
    let empty = subst (λ bs. find? (λ e. e.0 == k) bs ≡ some e) (sym (ok-injective h)) f in cc
parse_bins-find (suc n) i data_bytes k {bins} {e} h f =
    let (bin, parsed, h1) = >>=-eq-ok (parse_bin data_bytes bins_base i) _ h in
    let (rest, others, h2) = >>=-eq-ok (parse_bins n (i + 1) data_bytes) _ h1 in
    let found = subst (λ bs. find? (λ e. e.0 == k) bs ≡ some e) (sym (ok-injective h2)) f in
    elim (find_step (i == k) (i, bin) (find? (λ e. e.0 == k) rest) found) [
      | inl (here, same) ↦
          subst (λ j. parse_bin data_bytes bins_base j ≡ ok e.1) ((==_iff i k).0 here)
            (parsed ∙ ap (λ z. ok z.1) same)
      | inr (there, later) ↦ parse_bins-find n (i + 1) data_bytes k others later
    ]

-- The arrays that the accounts hold, in order.
abbrev pub AreParsed : List AccountInfo → List ParsedBinArray → Type 0
AreParsed [] [] = Unit {0}
AreParsed [] (array ∷ arrays) = ⊥
AreParsed (a ∷ accounts) [] = ⊥
AreParsed (a ∷ accounts) (array ∷ arrays) =
    (parse_bin_array a.data_bytes ≡ ok array) × AreParsed accounts arrays

-- The index of a parsed array is the one that its account is found by.
parsed-index :
    (data_bytes : List ℕ) {array : ParsedBinArray}
    → parse_bin_array data_bytes ≡ ok array
    → parse_bin_array_index data_bytes ≡ ok array.index
unfolding parse_bin_array
parsed-index data_bytes h =
    let (index, read, h1) = >>=-eq-ok (parse_bin_array_index data_bytes) _ h in
    let (bins, _, h2) = >>=-eq-ok (parse_bins 70 0 data_bytes) _ h1 in
    read ∙ ap (λ z. ok z.index) (ok-injective h2)

parsed-bins :
    (data_bytes : List ℕ) {array : ParsedBinArray}
    → parse_bin_array data_bytes ≡ ok array
    → parse_bins 70 0 data_bytes ≡ ok array.bins
unfolding parse_bin_array
parsed-bins data_bytes h =
    let (index, _, h1) = >>=-eq-ok (parse_bin_array_index data_bytes) _ h in
    let (bins, read, h2) = >>=-eq-ok (parse_bins 70 0 data_bytes) _ h1 in
    read ∙ ap (λ z. ok z.bins) (ok-injective h2)

-- Where a parsed array is found, its account is.
pub find_array-parsed :
    (accounts : List AccountInfo) (arrays : List ParsedBinArray) (wanted : ℤ)
    {array : ParsedBinArray}
    → AreParsed accounts arrays
    → find? (λ a. a.index ==ℤ wanted) arrays ≡ some array
    → (a : AccountInfo) × (find_array accounts wanted ≡ some a)
      × (parse_bin_array a.data_bytes ≡ ok array)
      × ((array.index ==ℤ wanted) ≡ true)
unfolding find_array find?
find_array-parsed [] [] wanted all h = cc
find_array-parsed [] (x ∷ arrays) wanted all h = elim all [ ]
find_array-parsed (a ∷ accounts) [] wanted all h = elim all [ ]
find_array-parsed (a ∷ accounts) (x ∷ arrays) wanted all h =
    let read = ap (λ r. index_matches wanted (to_option r)) (parsed-index a.data_bytes all.0) in
    elim (find_step (x.index ==ℤ wanted) x (find? (λ a. a.index ==ℤ wanted) arrays) h) [
      | inl (here, same) ↦ (
        a,
        find_here a (find_array accounts wanted) (read ∙ here),
        all.0 ∙ ap ok same,
        subst (λ z. (z.index ==ℤ wanted) ≡ true) same here,
      )
      | inr (there, later) ↦
          let (b, found, parsed, matches) = find_array-parsed accounts arrays wanted all.1 later in
          (b, find_later a (find_array accounts wanted) (read ∙ there) found, parsed, matches)
    ]

pub parsed_bin :
    (data_bytes : List ℕ) (array : ParsedBinArray) (bin_id : ℤ) (k : ℕ) (e : ℕ × Bin)
    → parse_bin_array data_bytes ≡ ok array
    → bin_offset bin_id array.index ≡ ok k
    → find? (λ e. e.0 == k) array.bins ≡ some e
    → parse_bin_for_id data_bytes bin_id array.index ≡ ok e.1
unfolding parse_bin_for_id
parsed_bin data_bytes array bin_id k e h at found =
    rw at (parse_bins-find 70 0 data_bytes k (parsed-bins data_bytes h) found)
