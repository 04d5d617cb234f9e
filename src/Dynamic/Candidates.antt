-- ===== src/Dynamic/Candidates.antt =====
-- `CandidateAmounts` of dynamic_amount.rs: a bounded list of different amounts.
use sol_arb_executor.Prelude.{
  ℕ, ◌-◌, List, [], ◌∷◌, ◌++◌, Bool, false, ◌&&◌, ◌||◌, length, ltb, leb, ◌==◌, if◌then◌else◌,
}
use sol_arb_executor.Word.{saturating_add_u64}
use sol_arb_executor.Dynamic.Types.{max_dynamic_candidates}

abbrev pub interior_neighborhood : ℕ
interior_neighborhood = 1

unfoldable pub contains : List ℕ → ℕ → Bool
contains [] amount = false
contains (x ∷ xs) amount = x == amount || contains xs amount

unfoldable pub push_unique : List ℕ → ℕ → List ℕ
push_unique values amount =
    if amount == 0 || contains values amount
    then values
    else (if ltb (length values) max_dynamic_candidates then values ++ amount ∷ [] else values)

-- One round of `push_neighborhood`.
unfoldable pub push_between : ℕ → ℕ → List ℕ → ℕ → List ℕ
push_between min max candidates candidate =
    if leb min candidate && leb candidate max then push_unique candidates candidate else candidates

unfoldable pub push_neighborhood : List ℕ → ℕ → ℕ → ℕ → List ℕ
push_neighborhood candidates amount min max =
    push_between min max
      (push_between min max (push_between min max candidates (amount - interior_neighborhood))
        amount)
      (saturating_add_u64 amount interior_neighborhood)
