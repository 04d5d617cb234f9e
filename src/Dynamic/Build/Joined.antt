-- ===== src/Dynamic/Build/Joined.antt =====
-- What `build_curve` of dynamic_amount.rs returns.
use sol_arb_executor.Prelude.{
  ℕ, ◌≤◌, ◌≡◌, refl, arith, List, [], ◌∷◌, Bool, Option, none, some, length, get_last?,
}
use sol_arb_executor.Prelude.Int.{ℤ}
use sol_arb_executor.Errors.{ok, >>=-eq-ok, ok-injective, map_err, best_direction_quote_incomplete}
use sol_arb_executor.Accounts.Types.{LbPairState, AccountInfo, max_quote_visited_bins_per_direction}
use sol_arb_executor.Accounts.Volatility.{fee_on_input, supports_limit_orders}
use sol_arb_executor.Dynamic.Types.{
  DlmmSegment, DlmmCurve, CurveStopReason, input_limit_reached, missing_bin_array,
  bin_array_limit_reached, visited_bin_limit_reached, no_usable_liquidity,
}
use sol_arb_executor.Dynamic.Curve.{clear, largest_complete_input}
use sol_arb_executor.Dynamic.Curve.Chain.{Chain, done, input_after}
use sol_arb_executor.Dynamic.Build.{walk, final_reason, build_curve}
use sol_arb_executor.Dynamic.Build.Rounds.{walk-Joined}

-- `final_reason` changes only the reason of a walk that ran through all its rounds.
final_reason-input_limit_reached :
    (ss : List DlmmSegment) (reason : CurveStopReason)
    → final_reason ss reason ≡ input_limit_reached
    → reason ≡ input_limit_reached
unfolding final_reason
final_reason-input_limit_reached [] input_limit_reached h = refl
final_reason-input_limit_reached [] missing_bin_array h = cc
final_reason-input_limit_reached [] bin_array_limit_reached h = cc
final_reason-input_limit_reached [] visited_bin_limit_reached h = cc
final_reason-input_limit_reached [] no_usable_liquidity h = cc
final_reason-input_limit_reached (s ∷ ss) reason h = h

last_end :
    (i : ℕ) (ss : List DlmmSegment)
    → (elim (get_last? ss) [ none ↦ i | some segment ↦ segment.input_end ]) ≡ input_after i ss
last_end i [] = refl
last_end i (s ∷ []) = refl
last_end i (s ∷ t ∷ ss) = last_end i (t ∷ ss)

pub largest_complete_input-eq :
    (curve : DlmmCurve) → largest_complete_input curve ≡ input_after 0 curve.segments
unfolding largest_complete_input
largest_complete_input-eq curve = last_end 0 curve.segments

-- What a curve that was built satisfies, for the limit that was asked.
pub record Built (limit : ℕ) (curve : DlmmCurve) : Type 0 where
  pub joined : Chain 0 0 curve.segments
  pub few : length curve.segments ≤ max_quote_visited_bins_per_direction
  pub reaches : curve.stop_reason ≡ input_limit_reached → limit ≤ largest_complete_input curve

-- Whenever `build_curve` succeeds, the segments of its curve join up from zero, each takes and
-- gives something, there are at most as many as bins may be visited, and a curve that stopped at
-- the input limit covers that limit.
pub build_curve-Built :
    (old : DlmmCurve) (pair : LbPairState) (arrays : List AccountInfo) (extension : Option (List ℕ))
    (swap_for_y : Bool) (timestamp : ℤ) (limit : ℕ) {curve : DlmmCurve}
    → build_curve old pair arrays extension swap_for_y timestamp limit ≡ ok curve
    → Built limit curve
unfolding build_curve clear
build_curve-Built old pair arrays extension swap_for_y timestamp limit h =
    let (on_input, _, h1) =
      >>=-eq-ok (map_err (fee_on_input pair swap_for_y) best_direction_quote_incomplete) _ h in
    let (supported, _, h2) =
      >>=-eq-ok (map_err (supports_limit_orders pair) best_direction_quote_incomplete) _ h1 in
    let ((reason, s), walked, h3) = >>=-eq-ok (walk _ _ _) _ h2 in
    let (j, reached) =
      walk-Joined _ _ _
        (record { chain = done; ends_in = refl; ends_out = refl; few = omega arith }) walked in
    rw (← ok-injective h3) (record {
      joined = j.chain;
      few = j.few;
      reaches = λ stop. omega (
        arith,
        largest_complete_input-eq _,
        j.ends_in,
        reached (final_reason-input_limit_reached _ _ stop),
      );
    })
