-- ===== src/Dynamic/Build.antt =====
-- `build_curve` of dynamic_amount.rs: the walk over the bins from the active one.
pub mod Rounds
pub mod Joined
use sol_arb_executor.Prelude.{
  ℕ, zero, suc, ◌+◌, ◌-◌, ◌^◌, min, List, [], ◌∷◌, ◌++◌, Bool, false, Option, none, some, length,
  find?, get_last?, leb, ◌==◌, if◌then◌else◌,
}
use sol_arb_executor.Prelude.Int.{ℤ, pos, negsuc, ◌+ℤ◌, ◌-ℤ◌, ◌==ℤ◌, ltb_ℤ}
use sol_arb_executor.Errors.{
  QuoteError, ArbError, invalid_input, math_overflow, insufficient_liquidity,
  best_direction_quote_incomplete, arithmetic_overflow, Result, ok, err, ◌>>=◌, ok_or, map_err,
  to_option,
}
use sol_arb_executor.Word.{u64_size, fits, checked_add_u64}
use sol_arb_executor.Quote.Types.{Bin, QuoteResult}
use sol_arb_executor.Quote.Dlmm.{dlmm_total_fee_rate, dlmm_bin_quote_capacity}
use sol_arb_executor.Accounts.Types.{
  LbPairState, DlmmVariableParameters, AccountInfo, max_quote_bin_arrays_per_direction,
  max_quote_visited_bins_per_direction,
}
use sol_arb_executor.Accounts.Bins.{
  parse_bin_array_index, parse_bin_for_id, bin_array_index, in_default_range,
  default_bitmap_contains, extension_bitmap_contains,
}
use sol_arb_executor.Accounts.Volatility.{
  update_reference, update_volatility_accumulator, dlmm_fee_parameters, fee_on_input,
  supports_limit_orders,
}
use sol_arb_executor.Dynamic.Types.{
  DlmmSegment, DlmmCurve, CurveStopReason, input_limit_reached, missing_bin_array,
  bin_array_limit_reached, visited_bin_limit_reached, no_usable_liquidity,
}
use sol_arb_executor.Dynamic.Curve.{clear, push}

-- `saturating_sub(1)` and `saturating_add(1)` of an i32.
unfoldable pub next_bin : ℤ → Bool → ℤ
next_bin active_id swap_for_y =
    if swap_for_y
    then (if ltb_ℤ (negsuc (2 ^ 31 - 1)) active_id then active_id -ℤ pos 1 else active_id)
    else (if ltb_ℤ active_id (pos (2 ^ 31 - 1)) then active_id +ℤ pos 1 else active_id)

-- `initialized`: the bit of the array in the bitmap or in its extension, if there is one.
unfoldable pub array_initialized : LbPairState → Option (List ℕ) → ℤ → Result ArbError Bool
array_initialized pair bitmap_extension array_index =
    if in_default_range array_index
    then ok (default_bitmap_contains pair.bitmap array_index)
    else elim bitmap_extension [
      | none ↦ ok false
      | some extension ↦
          map_err (extension_bitmap_contains extension array_index) best_direction_quote_incomplete
    ]

abbrev pub index_matches : ℤ → Option ℤ → Bool
index_matches wanted none = false
index_matches wanted (some index) = index ==ℤ wanted

-- `arrays.iter().find(…)`.
unfoldable pub find_array : List AccountInfo → ℤ → Option AccountInfo
find_array arrays array_index =
    find?
      (λ account. index_matches array_index (to_option (parse_bin_array_index account.data_bytes)))
      arrays

-- `used_len == 0 || used_indices[used_len - 1] != array_index`, and the new list of used arrays.
-- `none` is the limit on the arrays.
unfoldable pub note_array : List ℤ → ℤ → Option (List ℤ)
note_array used array_index =
    if index_matches array_index (get_last? used)
    then some used
    else (if length used == max_quote_bin_arrays_per_direction
        then none
        else some (used ++ array_index ∷ []))

-- What does not change during the walk.
pub record Walk : Type 0 where
  pub pair : LbPairState
  pub arrays : List AccountInfo
  pub bitmap_extension : Option (List ℕ)
  pub swap_for_y : Bool
  pub fee_on_input : Bool
  pub supports_limit_orders : Bool
  pub input_limit : ℕ

-- The mutable variables of the loop.
pub record WalkState : Type 0 where
  pub active_id : ℤ
  pub variable : DlmmVariableParameters
  pub total_in : ℕ
  pub total_out : ℕ
  pub used_indices : List ℤ
  pub visited_bins : ℕ
  pub curve : DlmmCurve

-- A round goes on, or leaves the loop with a reason.
pub data Round : Type 0 where
  go_on : WalkState → Round
  leave : CurveStopReason → WalkState → Round

abbrev pub advance : Walk → WalkState → WalkState
advance w s = record s { active_id = next_bin s.active_id w.swap_for_y }

-- Limit orders are dropped where the pair does not support them.
unfoldable pub usable_bin : Bool → Bin → Bin
usable_bin supported bin =
    if supported
    then bin
    else record bin { open_order_amount = 0; processed_order_remaining_amount = 0 }

-- The `Ok(capacity)` arm: a new segment, and the test of the input limit.
unfoldable pub add_segment : Walk → WalkState → Bin → ℕ → QuoteResult → Result ArbError Round
add_segment w s bin fee_rate capacity = do
  input_end ← ok_or (checked_add_u64 s.total_in capacity.amount_in) arithmetic_overflow
  output_end ← ok_or (checked_add_u64 s.total_out capacity.amount_out) arithmetic_overflow
  curve ←
      push
        (record {
          input_start = s.total_in;
          input_end = input_end;
          output_start = s.total_out;
          output_end = output_end;
          price_q64 = bin.price_q64;
          fee_rate = fee_rate;
          swap_for_y = w.swap_for_y;
          fee_on_input = w.fee_on_input;
          used_indices = s.used_indices;
        })
        s.curve
  let t = record s { total_in = input_end; total_out = output_end; curve = curve }
  ok (if leb w.input_limit input_end then leave input_limit_reached t else go_on (advance w t))

-- The match on the capacity of the bin.
unfoldable pub on_capacity :
    Walk → WalkState → Bin → ℕ → Result QuoteError QuoteResult → Result ArbError Round
on_capacity w s bin fee_rate (ok capacity) = add_segment w s bin fee_rate capacity
on_capacity w s bin fee_rate (err insufficient_liquidity) = ok (go_on (advance w s))
on_capacity w s bin fee_rate (err invalid_input) = err best_direction_quote_incomplete
on_capacity w s bin fee_rate (err math_overflow) = err best_direction_quote_incomplete

-- The body from the parsed bin on.
unfoldable pub visit_bin : Walk → WalkState → Bin → Result ArbError Round
visit_bin w s parsed = do
  let bin = usable_bin w.supports_limit_orders parsed
  let variable = update_volatility_accumulator s.active_id s.variable w.pair.static_parameters
  let parameters = dlmm_fee_parameters w.pair variable
  rate ← map_err (dlmm_total_fee_rate parameters) best_direction_quote_incomplete
  fee_rate ← ok_or (fits u64_size rate) best_direction_quote_incomplete
  on_capacity w (record s { variable = variable }) bin fee_rate
      (dlmm_bin_quote_capacity bin w.swap_for_y w.fee_on_input parameters)

-- The body for an initialized array.
unfoldable pub visit_array : Walk → WalkState → ℤ → Result ArbError Round
visit_array w s array_index = elim (find_array w.arrays array_index) [
  | none ↦ ok (leave missing_bin_array s)
  | some account ↦ elim (note_array s.used_indices array_index) [
    | none ↦ ok (leave bin_array_limit_reached s)
    | some used ↦
        map_err (parse_bin_for_id account.data_bytes s.active_id array_index)
          best_direction_quote_incomplete
        >>= visit_bin w (record s { used_indices = used })
  ]
]

-- The body of the loop.
unfoldable pub walk_round : Walk → WalkState → Result ArbError Round
walk_round w s = do
  let t = record s { visited_bins = min (s.visited_bins + 1) 255 }
  let array_index = bin_array_index t.active_id
  initialized ← array_initialized w.pair w.bitmap_extension array_index
  if initialized then visit_array w t array_index else ok (go_on (advance w t))

-- What follows a round: the rest of the loop, or its end.
abbrev pub after_round :
    Round
    → (WalkState → Result ArbError (CurveStopReason × WalkState))
    → Result ArbError (CurveStopReason × WalkState)
after_round (go_on s) rest = rest s
after_round (leave reason s) rest = ok (reason, s)

-- The loop, for the rounds that are left, with the reason for which it ended.
unfoldable pub walk : ℕ → Walk → WalkState → Result ArbError (CurveStopReason × WalkState)
walk zero w s = ok (visited_bin_limit_reached, s)
walk (suc rounds) w s = walk_round w s >>= λ r. after_round r (walk rounds w)

unfoldable pub final_reason : List DlmmSegment → CurveStopReason → CurveStopReason
final_reason [] visited_bin_limit_reached = no_usable_liquidity
final_reason segments reason = reason

unfoldable pub build_curve :
    DlmmCurve
    → LbPairState
    → List AccountInfo
    → Option (List ℕ)
    → Bool
    → ℤ
    → ℕ
    → Result ArbError DlmmCurve
build_curve curve pair arrays bitmap_extension swap_for_y timestamp input_limit = do
  let variable =
      update_reference pair.active_id pair.variable_parameters pair.static_parameters timestamp
  on_input ← map_err (fee_on_input pair swap_for_y) best_direction_quote_incomplete
  supported ← map_err (supports_limit_orders pair) best_direction_quote_incomplete
  (reason, s) ←
      walk max_quote_visited_bins_per_direction
        (record {
          pair = pair;
          arrays = arrays;
          bitmap_extension = bitmap_extension;
          swap_for_y = swap_for_y;
          fee_on_input = on_input;
          supports_limit_orders = supported;
          input_limit = input_limit;
        })
        (record {
          active_id = pair.active_id;
          variable = variable;
          total_in = 0;
          total_out = 0;
          used_indices = [];
          visited_bins = 0;
          curve = clear curve;
        })
  ok (record s.curve {
    visited_bins = s.visited_bins;
    stop_reason = final_reason s.curve.segments reason;
  })
