-- ===== src/Probe/Tests.antt =====
-- Rows of three trials.
use sol_arb_executor.Prelude.{ℕ, ◌≡◌, refl, List, [], ◌∷◌, Bool, true, some}
use sol_arb_executor.Errors.{ok, err, insufficient_liquidity}
use sol_arb_executor.Word.{checked_sub}
use sol_arb_executor.Probe.{Row, consider_output, consider_row, choose_from, choose}
use sol_arb_executor.Probe.Chosen.{Quotes, IsCovered, IsEnough, Holds, choose-IsCovered}

abbrev rows : List Row
rows =
    record { input = 100; forward = ok 120; reverse = err insufficient_liquidity }
    ∷ record { input = 1000; forward = ok 1100; reverse = ok 1150 }
    ∷ record { input = 10_000; forward = err insufficient_liquidity; reverse = ok 9900 }
    ∷ []

-- The largest profit, not the largest return on the input.
chosen : choose rows 1 ≡ some (record { input = 1000; output = 1150; reverse = true })
unfolding choose choose_from consider_row consider_output checked_sub
chosen = refl

choose-IsCovered_example :
    Holds (Quotes rows) (choose rows 1)
    × IsEnough 1 (choose rows 1)
    × ((input : ℕ) (reverse : Bool) (output : ℕ)
        → Quotes rows input reverse output
        → IsCovered 1 (choose rows 1) input output)
choose-IsCovered_example = choose-IsCovered rows 1
