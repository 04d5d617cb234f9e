-- ===== src/Route/Direction/Ordered.antt =====
-- The accounts that `ordered_bin_arrays` of best_direction.rs selects.
use sol_arb_executor.Prelude.{
  ◌≡◌, ◌⊎◌, sym, List, [], ◌∷◌, Bool, true, some, find?, Bool-cases, inl, inr,
}
use sol_arb_executor.Prelude.Int.{ℤ}
use sol_arb_executor.Errors.{
  best_direction_quote_incomplete, ok, ok_or, to_option, >>=-eq-ok, ok_or-eq-ok, ok-injective,
}
use sol_arb_executor.Accounts.Types.{AccountInfo}
use sol_arb_executor.Accounts.Bins.{parse_bin_array_index}
use sol_arb_executor.Dynamic.Build.{index_matches, find_array}
use sol_arb_executor.Route.Direction.{ordered_bin_arrays}

abbrev pub Listed : AccountInfo → List AccountInfo → Type 0
Listed a [] = ⊥
Listed a (x ∷ xs) = (a ≡ x) ⊎ Listed a xs

-- The selected accounts are among those given, and have the wanted indices in the wanted order.
pub data Selects (accounts : List AccountInfo) : List ℤ → List AccountInfo → Type 0 where
  nothing : Selects accounts [] []
  next :
      {wanted : ℤ} {indices : List ℤ} {account : AccountInfo} {rest : List AccountInfo}
      → Listed account accounts
      → index_matches wanted (to_option (parse_bin_array_index account.data_bytes)) ≡ true
      → Selects accounts indices rest
      → Selects accounts (wanted ∷ indices) (account ∷ rest)

some-injective : {x y : AccountInfo} → some x ≡ some y → x ≡ y
some-injective h = cc

find?-some :
    (p : AccountInfo → Bool) (xs : List AccountInfo) {a : AccountInfo}
    → find? p xs ≡ some a
    → Listed a xs × (p a ≡ true)
unfolding find?
find?-some p [] h = cc
find?-some p (x ∷ xs) h = elim (Bool-cases (p x)) [
  | inl fit ↦
      let same : x ≡ _ = some-injective (rw (find?, fit) at h) in (inl (sym same), rw (← same) fit)
  | inr miss ↦ let (there, holds) = find?-some p xs (rw (find?, miss) at h) in (inr there, holds)
]

-- When the selection succeeds, it gives one account for each wanted index, in the same order: an
-- account of the list whose data carry that index.
pub ordered_bin_arrays-Selects :
    (accounts : List AccountInfo) (indices : List ℤ) {selected : List AccountInfo}
    → ordered_bin_arrays accounts indices ≡ ok selected
    → Selects accounts indices selected
unfolding ordered_bin_arrays find_array
ordered_bin_arrays-Selects accounts [] h = rw (← ok-injective h) nothing
ordered_bin_arrays-Selects accounts (wanted ∷ indices) h =
    let (account, found, h1) =
      >>=-eq-ok (ok_or (find_array accounts wanted) best_direction_quote_incomplete) _ h in
    let (rest, others, h2) = >>=-eq-ok (ordered_bin_arrays accounts indices) _ h1 in
    let (listed, fits) =
      find?-some _ accounts (ok_or-eq-ok _ best_direction_quote_incomplete found) in
    rw (← ok-injective h2) (next listed fits (ordered_bin_arrays-Selects accounts indices others))
